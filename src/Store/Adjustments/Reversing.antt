-- ===== src/Store/Adjustments/Reversing.antt =====
-- Requests about a transfer: what they are checked for, and what their approval books.
use go_odtbank.Base.{
  String, true, false, ◌≡◌, ◌≢◌, refl, sym, ap, subst, ◌∙◌, List, [], ◌∷◌, ◌++◌, Dict, some, lookup,
  insert, not, lookup-insert_self, stream, stream-insert_self, stream-insert_ne, str_eq,
  str_eq_self, str_eq_ne, is_empty, length, ◌≤ℤ◌, ltb_ℤ, add64, sub64, arith,
}
use go_odtbank.Domain.Event.{Event, Money, Time, money_credited, money_debited}
use go_odtbank.Domain.Account.{Account, replay_account, fold, with_available}
use go_odtbank.Domain.Account.Appends.{with_balance, replay-append}
use go_odtbank.Domain.Error.{Result, ok, err, already_reversed}
use go_odtbank.Domain.Transfer.{TransferRecord, is_completed}
use go_odtbank.Domain.Adjustment.{
  AdjustmentRequest, is_rejected, is_waiting, waiting, approved, manual,
}
use go_odtbank.Store.{MemoryStore, Outcome}
use go_odtbank.Store.Adjustments.{
  transfer_reversed, prepare_adjustment, create_adjustment, store_adjustment, append_credit,
  append_debit, apply_adjustment, settle_adjustment, approve_adjustment, adjustment_posting,
}

-- The books after a reversal: the destination has paid the amount back, and the source has the
-- amount and the fee again.
abbrev pub Reverses : AdjustmentRequest → Dict (List Event) → Result (Dict (List Event)) → Type 0
Reverses r d (ok d') =
    (replay_account r.counterparty_account_id (stream r.counterparty_account_id d')
      ≡ with_balance
          (sub64
            (replay_account r.counterparty_account_id (stream r.counterparty_account_id d)).balance
            r.amount)
          (replay_account r.counterparty_account_id (stream r.counterparty_account_id d)))
    × (replay_account r.account_id (stream r.account_id d')
        ≡ with_balance
            (add64 (replay_account r.account_id (stream r.account_id d)).balance
              (add64 r.amount r.fee))
            (replay_account r.account_id (stream r.account_id d)))
    × ((j : String) → j ≢ r.account_id → j ≢ r.counterparty_account_id → stream j d' ≡ stream j d)
Reverses r d (err e) = ⊥

debit_covered :
    (r : AdjustmentRequest) (at : Time) (account : String) (amount : Money) (counterparty : String)
    (d : Dict (List Event))
    → amount ≤ℤ (replay_account account (stream account d)).available_balance
    → (e : Event) × (append_debit r at account amount counterparty d
        ≡ ok (insert account (stream account d ++ e ∷ []) d))
      × ((a : Account) → (fold a e) ≡ record a { balance = sub64 a.balance amount })
unfolding append_debit fold
debit_covered r at account amount counterparty d enough =
    let covered : ltb_ℤ (replay_account account (stream account d)).available_balance amount
        ≡ false =
      ground arith in
    (
      money_debited (
          adjustment_posting r account amount counterparty "MoneyDebited" at
            (length (stream account d))),
      rw covered refl,
      λ a. refl,
    )

-- A request about a transfer, with two different accounts and the amount available on the
-- counterparty's: both its postings are made, in the arithmetic of int64. They lower the
-- counterparty's balance by the amount and raise the account's by the amount and the fee, keep what
-- is on hold on either, and change no other stream.
pub apply-Reverses :
    (r : AdjustmentRequest) (at : Time) (d : Dict (List Event))
    → r.original_transfer_id ≢ ""
    → r.account_id ≢ r.counterparty_account_id
    → r.amount
      ≤ℤ (replay_account r.counterparty_account_id
          (stream r.counterparty_account_id d)).available_balance
    → Reverses r d (apply_adjustment r at d)
unfolding apply_adjustment append_credit fold
apply-Reverses r at d whole apart enough =
    let (e, debited, folded) =
      debit_covered r at r.counterparty_account_id r.amount r.account_id d enough in
    let c = r.counterparty_account_id in
    let d1 = insert c (stream c d ++ e ∷ []) d in
    let credit = money_credited (
      adjustment_posting r r.account_id (add64 r.amount r.fee) c "MoneyCredited" at
        (length (stream r.account_id d1))) in
    let ac = stream-insert_ne r.account_id c (stream c d ++ e ∷ []) d apart in
    rw (str_eq_ne r.original_transfer_id "" whole) (
      rw debited (
        ap (replay_account c)
              (stream-insert_ne c r.account_id _ d1 (λ k. apart (sym k)) ∙ stream-insert_self c _ d)
            ∙ replay-append c (stream c d) e
            ∙ ap with_available (folded (replay_account c (stream c d))),
        ap (replay_account r.account_id) (stream-insert_self r.account_id _ d1)
            ∙ replay-append r.account_id (stream r.account_id d1) credit
            ∙ ap
                (λ (es : List Event).
                  with_balance
                    (add64 (replay_account r.account_id es).balance (add64 r.amount r.fee))
                    (replay_account r.account_id es))
                ac,
        λ j h k. stream-insert_ne j r.account_id _ d1 h ∙ stream-insert_ne j c _ d k,
      ))

reversed-insert :
    (id key : String) (r : AdjustmentRequest) (d : Dict AdjustmentRequest)
    → r.original_transfer_id ≡ id
    → is_rejected r.status ≡ false
    → transfer_reversed id (insert key r d) ≡ true
unfolding transfer_reversed insert
reversed-insert id key r [] e s = ground (arith, str_eq_self id, ap (λ (x : String). str_eq x id) e)
reversed-insert id key r ((k, x) ∷ d) e s =
    ground
      (arith, reversed-insert id key r d e s, str_eq_self id, ap (λ (x : String). str_eq x id) e)

not_empty {ℓ} : {A : Type ℓ} (xs : List A) → xs ≢ [] → is_empty xs ≡ false
not_empty [] h = absurd (h refl)
not_empty (x ∷ xs) h = refl

-- A request that is approved, and whose postings reverse: the answer, the books and the mark.
abbrev pub BooksReversal :
    AdjustmentRequest → String → Time → Dict (List Event) → Outcome (Unit {0}) → Type 0
BooksReversal r admin at d (res, m') =
    (res ≡ ok tt)
    × Reverses r d (ok m'.streams)
    × (lookup r.id m'.adjustments
        ≡ some (record r { status = approved; reviewed_by = admin; reviewed_at = some at }))

settle-BooksReversal :
    (r : AdjustmentRequest) (admin : String) (at : Time) (d : Dict (List Event)) (m : MemoryStore)
    (res : Result (Dict (List Event)))
    → Reverses r d res
    → BooksReversal r admin at d (settle_adjustment r.id r admin at res m)
settle-BooksReversal r admin at d m (err e) h = elim h [ ]
settle-BooksReversal r admin at d m (ok d') h = (refl, h, lookup-insert_self r.id _ m.adjustments)

approve-BooksReversal :
    (r : AdjustmentRequest) (admin : String) (at : Time) (m : MemoryStore)
    → lookup r.id m.adjustments ≡ some r
    → r.status ≡ waiting
    → r.created_by ≢ admin
    → Reverses r m.streams (apply_adjustment r at m.streams)
    → BooksReversal r admin at m.streams (approve_adjustment r.id admin at m)
unfolding approve_adjustment
approve-BooksReversal r admin at m found open_request other h =
    let waits : not (is_waiting r.status) ≡ false = rw open_request refl in
    rw (found, approve_adjustment)
      (rw waits (
        rw (str_eq_ne r.created_by admin other)
          (settle-BooksReversal r admin at m.streams m (apply_adjustment r at m.streams) h)))

-- A waiting request of the kind manual that names a transfer, for an account that has events and
-- another one, with the amount available on the latter: it is stored as it came, and another
-- administrator's approval succeeds and books a reversal, with the accounts, the amount and the fee
-- of the request. Whether there is such a transfer, and whether it is reversed already, does not
-- matter.
pub manual_names_transfer :
    (r : AdjustmentRequest) (admin : String) (at : Time) (m : MemoryStore)
    → r.kind ≡ manual
    → r.original_transfer_id ≢ ""
    → r.status ≡ waiting
    → r.created_by ≢ admin
    → stream r.account_id m.streams ≢ []
    → r.account_id ≢ r.counterparty_account_id
    → r.amount
      ≤ℤ (replay_account r.counterparty_account_id
          (stream r.counterparty_account_id m.streams)).available_balance
    → let (res, m') = create_adjustment r m in
      (res ≡ ok r) × BooksReversal r admin at m.streams (approve_adjustment r.id admin at m')
unfolding create_adjustment prepare_adjustment
manual_names_transfer r admin at m k whole open_request other known apart enough =
    let t : str_eq r.kind manual ≡ true =
      ap (λ (x : String). str_eq x manual) k ∙ str_eq_self manual in
    let some_events : is_empty (stream r.account_id m.streams) ≡ false =
      not_empty (stream r.account_id m.streams) known in
    rw t (
      rw some_events (
        refl,
        approve-BooksReversal r admin at (record m { adjustments = insert r.id r m.adjustments })
            (lookup-insert_self r.id r m.adjustments) open_request other
            (apply-Reverses r at m.streams whole apart enough),
      ))

created :
    (id : String) (res : Result AdjustmentRequest) (stored : AdjustmentRequest) (m m' : MemoryStore)
    → store_adjustment id res m ≡ (ok stored, m')
    → record m { adjustments = insert id stored m.adjustments } ≡ m'
created id (ok r) stored m m' e = cc
created id (err x) stored m m' e = absurd (cc e)

refused :
    (q : AdjustmentRequest) (t : TransferRecord) (m : MemoryStore)
    → q.kind ≢ manual
    → q.original_transfer_id ≢ ""
    → lookup q.original_transfer_id m.transfers ≡ some t
    → is_completed t.status ≡ true
    → transfer_reversed q.original_transfer_id m.adjustments ≡ true
    → create_adjustment q m ≡ (err already_reversed, m)
unfolding create_adjustment
refused q t m other whole found completed again =
    rw (str_eq_ne q.kind manual other)
      (rw (str_eq_ne q.original_transfer_id "" whole) (rw found (rw completed (rw again refl))))

-- While a stored request that is not rejected names a completed transfer, a further request for
-- that transfer, unless it is marked manual, is refused as reversed already, and nothing is stored.
pub reverse_once :
    (r q stored : AdjustmentRequest) (t : TransferRecord) (m m' : MemoryStore)
    → create_adjustment r m ≡ (ok stored, m')
    → is_rejected stored.status ≡ false
    → stored.original_transfer_id ≡ q.original_transfer_id
    → q.kind ≢ manual
    → q.original_transfer_id ≢ ""
    → lookup q.original_transfer_id m.transfers ≡ some t
    → is_completed t.status ≡ true
    → create_adjustment q m' ≡ (err already_reversed, m')
unfolding create_adjustment
reverse_once r q stored t m m' done w same other whole found completed =
    let m1 = record m { adjustments = insert r.id stored m.adjustments } in
    subst (λ (s : MemoryStore). create_adjustment q s ≡ (err already_reversed, s))
      (created r.id (prepare_adjustment r m) stored m m' done)
      (refused q t m1 other whole found completed
        (reversed-insert q.original_transfer_id r.id stored m.adjustments same w))
