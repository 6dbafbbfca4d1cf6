-- ===== src/Store/Transfers/Ledger.antt =====
-- What posting a transfer to the ledger does to the accounts.
use go_odtbank.Base.{
  String, ◌≡◌, ◌≢◌, refl, sym, ap, ◌∙◌, ◌⊎◌, inl, inr, true, false, ◌||◌, List, [], lookup, stream,
  insert, pos, ◌-ℤ◌, ◌≤ℤ◌, ltb_ℤ, wrap64, add64, sub64, wrap64-sub, int_laws, arith, some, is_empty,
  stream-insert_self, stream-insert_ne, lookup-insert_self, Bool-cases,
}
use go_odtbank.Domain.Event.{Event, Money, Time}
use go_odtbank.Domain.Account.{replay_account, fold}
use go_odtbank.Domain.Account.Appends.{replay-append, with_balance}
use go_odtbank.Domain.Error.{ok, err, account_not_found}
use go_odtbank.Domain.Transfer.{TransferRecord}
use go_odtbank.Store.{MemoryStore, Outcome, account_of}
use go_odtbank.Store.Transfers.{post_transfer_ledger, with_fee, with_debit, with_credit, flag}
use go_odtbank.Store.Transfers.Holds.{is_empty-nil, or-cases}

-- What a first posting of `r` in `m` has done, by how it ended.
abbrev pub Posts : TransferRecord → MemoryStore → Outcome Money → Type 0
Posts r m (ok b, m') =
    (b ≡ (account_of r.source_account_id m').balance)
    × (account_of r.source_account_id m'
        ≡ with_balance (wrap64 ((account_of r.source_account_id m).balance -ℤ r.fee -ℤ r.amount))
            (account_of r.source_account_id m))
    × (account_of r.destination_account_id m'
        ≡ with_balance (add64 (account_of r.destination_account_id m).balance r.amount)
            (account_of r.destination_account_id m))
    × (lookup r.id m'.ledger_postings ≡ some true)
    × ((j : String)
        → j ≢ r.source_account_id
        → j ≢ r.destination_account_id
        → stream j m'.streams ≡ stream j m.streams)
Posts r m (err e, m') =
    (m' ≡ m)
    × (e ≡ account_not_found)
    × ((stream r.source_account_id m.streams ≡ [])
        ⊎ (stream r.destination_account_id m.streams ≡ []))

debit_only :
    (id : String) (r : TransferRecord) (at : Time) (es : List Event)
    → replay_account id (with_debit r at es)
      ≡ with_balance (sub64 (replay_account id es).balance r.amount) (replay_account id es)
unfolding fold
debit_only id r at es = replay-append id es _

minus_zero : (b f : Money) → pos 0 ≤ℤ f → ltb_ℤ (pos 0) f ≡ false → b -ℤ f ≡ b
minus_zero b f h k = let none_left : f ≤ℤ pos 0 = ground arith in omega int_laws

-- The fee, if there is one, and the amount leave the source.
pub debits :
    (id : String) (r : TransferRecord) (at : Time) (es : List Event)
    → pos 0 ≤ℤ r.fee
    → replay_account id (with_debit r at (with_fee r at es))
      ≡ with_balance
          (wrap64 ((replay_account id es).balance -ℤ r.fee -ℤ r.amount))
          (replay_account id es)
unfolding fold sub64
debits id r at es h =
    let a = replay_account id es in
    elim (Bool-cases (ltb_ℤ (pos 0) r.fee)) [
      | inl some_fee ↦ rw some_fee (
          debit_only id r at _
          ∙ ap (λ b. with_balance (sub64 b.balance r.amount) b) (replay-append id es _)
          ∙ ap (λ b. with_balance b a) (wrap64-sub (a.balance -ℤ r.fee) r.amount))
      | inr no_fee ↦ rw no_fee (
          debit_only id r at es
          ∙ ap (λ b. with_balance (wrap64 (b -ℤ r.amount)) a)
              (sym (minus_zero a.balance r.fee h no_fee)))
    ]

-- A first posting between two different accounts, with a fee that is not negative: if both have
-- events, the source's balance goes down by the fee and the amount and the destination's up by the
-- amount, what is on hold stays, the transfer is marked as posted, the new source balance is
-- returned, and no other stream changes. If one has no events, it says so and changes nothing.
pub post_lem :
    (r : TransferRecord) (at : Time) (m : MemoryStore)
    → flag (lookup r.id m.ledger_postings) ≡ false
    → r.source_account_id ≢ r.destination_account_id
    → pos 0 ≤ℤ r.fee
    → Posts r m (post_transfer_ledger r at m)
unfolding post_transfer_ledger fold
post_lem r at m fresh apart fee =
    let s = r.source_account_id in
    let d = r.destination_account_id in
    let src = stream s m.streams in
    let dst = stream d m.streams in
    let src' = with_debit r at (with_fee r at src) in
    let dst' = with_credit r at dst in
    let streams' = insert d dst' (insert s src' m.streams) in
    let new_src : stream s streams' ≡ src' =
      stream-insert_ne s d dst' (insert s src' m.streams) apart
      ∙ stream-insert_self s src' m.streams in
    rw fresh (elim (Bool-cases (is_empty src || is_empty dst)) [
      | inl e ↦ rw e (
        refl,
        refl,
        elim (or-cases _ _ e) [
          | inl p ↦ inl (is_empty-nil src p)
          | inr p ↦ inr (is_empty-nil dst p)
        ],
      )
      | inr full ↦ rw full (
        ap (λ es. (replay_account s es).balance) (sym new_src),
        ap (replay_account s) new_src ∙ debits s r at src fee,
        ap (replay_account d) (stream-insert_self d dst' (insert s src' m.streams))
            ∙ replay-append d dst _,
        lookup-insert_self r.id true m.ledger_postings,
        λ j h k.
            stream-insert_ne j d dst' (insert s src' m.streams) k
            ∙ stream-insert_ne j s src' m.streams h,
      )
    ])
