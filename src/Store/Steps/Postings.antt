-- ===== src/Store/Steps/Postings.antt =====
-- The methods that post a transfer add numbered events to two streams.
use go_odtbank.Base.{
  String, ◌≡◌, inl, inr, refl, sym, ap, ◌∙◌, List, [], ◌∷◌, ◌++◌, lookup, insert, stream,
  stream-insert_self, stream-insert_ne, String-cases, length, add64, Bool-cases, Option-cases, pos,
  ltb_ℤ, append_assoc, append-nil, if_both, Dict, is_empty, ◌||◌,
}
use go_odtbank.Domain.Event.{Event, Time, money_debited}
use go_odtbank.Domain.Account.{replay_account}
use go_odtbank.Domain.Account.Snapshots.{NumberedFrom}
use go_odtbank.Domain.Transfer.{TransferRecord}
use go_odtbank.Store.{MemoryStore}
use go_odtbank.Store.Transfers.{
  post_transfer_ledger, transfer_posting, with_fee, with_debit, with_credit, flag, find_existing,
  same_details,
}
use go_odtbank.Store.Execution.{execute_transfer, execute_new}
use go_odtbank.Store.Streams.{
  StoreInv, Keeps, Keeps-refl, Numbered, Extends, same-Keeps, adds-Keeps, insert-Numbered,
  insert-Extends, numbered_snoc,
}

with_fee-numbered :
    (r : TransferRecord) (at : Time) (es : List Event)
    → NumberedFrom 0 es
    → NumberedFrom 0 (with_fee r at es)
with_fee-numbered r at es h =
    if_both (NumberedFrom 0) (ltb_ℤ (pos 0) r.fee) (numbered_snoc es _ h refl) h

with_fee-more :
    (r : TransferRecord) (at : Time) (es : List Event)
    → (more : List Event) × (with_fee r at es ≡ es ++ more)
with_fee-more r at es =
    if_both (λ (x : List Event). (more : List Event) × (x ≡ es ++ more)) (ltb_ℤ (pos 0) r.fee)
      (_ ∷ [], refl) ([], sym (append-nil es))

-- The debit behind the fee.
abbrev debit : TransferRecord → Time → List Event → Event
debit r at es = money_debited (
    transfer_posting r r.source_account_id r.destination_account_id r.amount "transfer"
      "MoneyDebited" at (length (with_fee r at es)))

debited-more :
    (r : TransferRecord) (at : Time) (es : List Event)
    → (more : List Event) × (with_debit r at (with_fee r at es) ≡ es ++ more)
debited-more r at es =
    let (more, e) = with_fee-more r at es in
    (
      more ++ debit r at es ∷ [],
      ap (λ (x : List Event). x ++ debit r at es ∷ []) e
          ∙ append_assoc es more (debit r at es ∷ []),
    )

-- A posting adds to the source and then to the destination, also where the two are one account.
two_streams :
    (s d : String) (src dst more : List Event) (e : Event) (streams : Dict (List Event))
    → Numbered streams
    → src ≡ stream s streams ++ more
    → NumberedFrom 0 src
    → dst ≡ stream d streams ++ e ∷ []
    → NumberedFrom 0 dst
    → Extends streams (insert d dst (insert s src streams))
      × Numbered (insert d dst (insert s src streams))
two_streams s d src dst more e streams h es ns ed nd = (
  λ j. elim (String-cases j d) [
    | inl here ↦ (e ∷ [], rw here (stream-insert_self d dst _ ∙ ed))
    | inr other ↦
        let (xs, x) = insert-Extends s more streams j in
        (
          xs,
          stream-insert_ne j d dst _ other
              ∙ ap (λ (y : List Event). stream j (insert s y streams)) es
              ∙ x,
        )
  ],
  insert-Numbered d dst _ (insert-Numbered s src streams h ns) nd,
)

pub post-Keeps :
    (r : TransferRecord) (at : Time) (m : MemoryStore)
    → StoreInv m
    → Keeps m (post_transfer_ledger r at m).1
unfolding post_transfer_ledger
post-Keeps r at m inv =
    let s = r.source_account_id in
    let d = r.destination_account_id in
    let src = stream s m.streams in
    let dst = stream d m.streams in
    let (more, e) = debited-more r at src in
    let fee_numbered = with_fee-numbered r at src (inv.numbered s) in
    let (grown, numbered) =
      two_streams s d (with_debit r at (with_fee r at src)) (with_credit r at dst) _ _ m.streams
        inv.numbered e (numbered_snoc (with_fee r at src) (debit r at src) fee_numbered refl) refl
        (numbered_snoc dst _ (inv.numbered d) refl) in
    elim (Bool-cases (flag (lookup r.id m.ledger_postings))) [
      | inl again ↦ rw again (Keeps-refl m inv)
      | inr first ↦ rw first (elim (Bool-cases (is_empty src || is_empty dst)) [
        | inl unknown ↦ rw unknown (Keeps-refl m inv)
        | inr known ↦ rw known (adds-Keeps m _ inv grown numbered refl)
      ])
    ]

-- `ExecuteTransfer` adds the same events, or none.
pub execute-Keeps :
    (r : TransferRecord) (at : Time) (m : MemoryStore)
    → StoreInv m
    → Keeps m (execute_transfer r at m).1
unfolding execute_transfer execute_new
execute-Keeps r at m inv =
    let s = r.source_account_id in
    let d = r.destination_account_id in
    let src = stream s m.streams in
    let dst = stream d m.streams in
    let (more, e) = debited-more r at src in
    let fee_numbered = with_fee-numbered r at src (inv.numbered s) in
    let (grown, numbered) =
      two_streams s d (with_debit r at (with_fee r at src)) (with_credit r at dst) _ _ m.streams
        inv.numbered e (numbered_snoc (with_fee r at src) (debit r at src) fee_numbered refl) refl
        (numbered_snoc dst _ (inv.numbered d) refl) in
    elim (Option-cases (find_existing s r.idempotency_key m.transfers)) [
      | inr (t, old) ↦
          rw (old, execute_transfer)
            (elim (Bool-cases (same_details t r)) [
              | inl same ↦ rw same (Keeps-refl m inv)
              | inr other ↦ rw other (Keeps-refl m inv)
            ])
      | inl new ↦
          rw (new, execute_transfer)
            (elim (Bool-cases (is_empty src || is_empty dst)) [
              | inl unknown ↦ rw unknown (same-Keeps m _ inv refl refl)
              | inr known ↦
                  rw known
                    (elim (Bool-cases
                      (ltb_ℤ (replay_account s src).balance (add64 r.amount r.fee))) [
                        | inl short ↦ rw short (same-Keeps m _ inv refl refl)
                        | inr covered ↦ rw covered (adds-Keeps m _ inv grown numbered refl)
                      ])
            ])
    ]
