-- ===== src/Service/Cash/Deposits.antt =====
-- What a deposit does, whatever else happens between its load and its append.
use go_odtbank.Base.{
  String, ◌≡◌, ◌≢◌, ◌⊎◌, inl, inr, refl, sym, ap, ◌∙◌, ◌≤ℤ◌, ◌<ℤ◌, add64, ltb_ℤ, List, [], ◌∷◌,
  ◌++◌, append-nil, length, length-append, is_empty, stream, Bool-cases, arith,
}
use go_odtbank.Domain.Event.{Event, Money, Time, money_credited}
use go_odtbank.Domain.Account.{DepositReceipt, replay_account, fold}
use go_odtbank.Domain.Account.Appends.{with_balance, replay-append}
use go_odtbank.Domain.Error.{
  ok, err, invalid_deposit_amount, account_not_found, concurrency_conflict,
}
use go_odtbank.Store.{MemoryStore, Outcome, account_of}
use go_odtbank.Store.Events.{load}
use go_odtbank.Store.Events.Concurrency.{Appends, append_lem}
use go_odtbank.Store.Streams.{Extends}
use go_odtbank.Store.Transfers.{plain_posting}
use go_odtbank.Store.Transfers.Holds.{is_empty-nil}
use go_odtbank.Service.Cash.{deposit, receipt_if, minimum_deposit_amount}

-- What a deposit has done to the store `m'` in which its append was tried, having loaded from `m`.
abbrev pub Deposits : Money → String → MemoryStore → MemoryStore → Outcome DepositReceipt → Type 0
Deposits amount id m m1 (ok receipt, m') =
    (minimum_deposit_amount ≤ℤ amount)
    × (receipt.initial_account ≡ account_of id m1)
    × (receipt.final_account ≡ account_of id m')
    × (account_of id m' ≡ with_balance (add64 (account_of id m1).balance amount) (account_of id m1))
    × ((j : String) → j ≢ id → stream j m'.streams ≡ stream j m1.streams)
Deposits amount id m m1 (err e, m') =
    ((e ≡ invalid_deposit_amount) × (amount <ℤ minimum_deposit_amount) × (m' ≡ m))
    ⊎ ((e ≡ account_not_found) × (stream id m.streams ≡ []) × (m' ≡ m1))
    ⊎ ((e ≡ concurrency_conflict)
        × (length (stream id m1.streams) ≢ length (stream id m.streams))
        × (m' ≡ m1))

-- A list that another extends to the same length is that list.
same_length : (xs more ys : List Event) → ys ≡ xs ++ more → length ys ≡ length xs → ys ≡ xs
same_length xs [] ys e n = e ∙ append-nil xs
same_length xs (x ∷ more) ys e n = absurd (omega (arith, ap length e, length-append xs (x ∷ more)))

appended :
    (amount : Money) (id : String) (now : Time) (m m1 : MemoryStore)
    → minimum_deposit_amount ≤ℤ amount
    → Extends m.streams m1.streams
    → (stream id m.streams ≢ [])
    → let events = stream id m.streams in
      let credit = money_credited (plain_posting id amount now "MoneyCredited" (length events)) in
      (o : Outcome (Unit {0}))
      → Appends credit (length events) m1 o
      → Deposits amount id m m1 (
        receipt_if
            (record {
              initial_account = replay_account id events;
              final_account = replay_account id (events ++ credit ∷ []);
              deposit_amount = amount;
            })
            o.0,
        o.1,
      )
unfolding fold
appended amount id now m m1 enough grown known (ok _, m') (len, rest, added, elsewhere) =
    let (more, e) = grown id in
    let credit =
      money_credited (plain_posting id amount now "MoneyCredited" (length (stream id m.streams))) in
    let same = same_length (stream id m.streams) more (stream id m1.streams) e len in
    (
      enough,
      ap (replay_account id) (sym same),
      ap (λ (es : List Event). replay_account id (es ++ credit ∷ [])) (sym same)
          ∙ ap (replay_account id) (sym added),
      ap (replay_account id) added ∙ replay-append id (stream id m1.streams) credit,
      elsewhere,
    )
appended amount id now m m1 enough grown known (err x, m') (e, kept, len) = inr (inr (e, len, kept))

-- A deposit below the minimum, or into an account with no events, is refused and writes nothing.
-- Where other requests, which only add to streams, have added to this one in between, it reports a
-- conflict and writes nothing. Otherwise the balance at the time of the append grows by the amount,
-- no other stream changes, and the receipt shows the account before and after.
pub deposit_lem :
    (others : MemoryStore → MemoryStore) (amount : Money) (id : String) (now : Time)
    (m : MemoryStore)
    → Extends m.streams (others m).streams
    → Deposits amount id m (others m) (deposit others amount id now m)
unfolding deposit load
deposit_lem others amount id now m grown =
    let events = stream id m.streams in
    elim (Bool-cases (ltb_ℤ amount minimum_deposit_amount)) [
      | inl small ↦ rw small (inl (refl, ground arith, refl))
      | inr enough ↦ rw enough (elim (Bool-cases (is_empty events)) [
        | inl unknown ↦ rw unknown (inr (inl (refl, is_empty-nil events unknown, refl)))
        | inr known ↦ rw known (
            appended amount id now m (others m) (ground arith) grown
              (λ e. cc (known, ap is_empty e)) _ (append_lem _ (length events) (others m)))
      ])
    ]
