-- ===== src/Service/Cash/Withdrawals.antt =====
-- What a withdrawal does in the memory store.
use go_odtbank.Base.{
  String, ◌≡◌, ◌≢◌, ◌⊎◌, inl, inr, refl, sym, ap, ◌∙◌, ◌≤ℤ◌, ◌<ℤ◌, sub64, ltb_ℤ, [], ◌∷◌, ◌++◌,
  length, is_empty, stream, stream-insert_self, stream-insert_ne, Bool-cases, arith,
}
use go_odtbank.Domain.Event.{Money, Time, money_debited}
use go_odtbank.Domain.Account.{WithdrawalReceipt, replay_account, fold}
use go_odtbank.Domain.Account.Appends.{with_balance, replay-append}
use go_odtbank.Domain.Error.{
  ok, err, invalid_withdraw_amount, account_not_found, insufficient_funds,
}
use go_odtbank.Store.{MemoryStore, Outcome, account_of}
use go_odtbank.Store.Transfers.{plain_posting, withdraw_available}
use go_odtbank.Store.Transfers.Holds.{is_empty-nil}
use go_odtbank.Service.Cash.{withdraw, minimum_withdraw_amount}

-- What a withdrawal from the store `m` has done.
abbrev pub Withdraws : Money → String → MemoryStore → Outcome WithdrawalReceipt → Type 0
Withdraws amount id m (ok receipt, m') =
    (minimum_withdraw_amount ≤ℤ amount)
    × (amount ≤ℤ (account_of id m).available_balance)
    × (receipt.initial_account ≡ account_of id m)
    × (receipt.final_account ≡ account_of id m')
    × (account_of id m' ≡ with_balance (sub64 (account_of id m).balance amount) (account_of id m))
    × ((j : String) → j ≢ id → stream j m'.streams ≡ stream j m.streams)
Withdraws amount id m (err e, m') =
    (m' ≡ m)
    × (((e ≡ invalid_withdraw_amount) × (amount <ℤ minimum_withdraw_amount))
        ⊎ ((e ≡ account_not_found) × (stream id m.streams ≡ []))
        ⊎ ((e ≡ insufficient_funds (account_of id m) amount)
            × ((account_of id m).available_balance <ℤ amount)))

-- A withdrawal below the minimum, from an account with no events, or of more than the available
-- balance is refused with that reason and changes nothing. Any other lowers the balance by the
-- amount, keeps what is on hold, changes no other stream, and its receipt shows the account before
-- and after.
pub withdraw_lem :
    (amount : Money) (id : String) (now : Time) (m : MemoryStore)
    → Withdraws amount id m (withdraw amount id now m)
unfolding withdraw withdraw_available fold
withdraw_lem amount id now m =
    let events = stream id m.streams in
    let debit = money_debited (plain_posting id amount now "MoneyDebited" (length events)) in
    let events' = events ++ debit ∷ [] in
    elim (Bool-cases (ltb_ℤ amount minimum_withdraw_amount)) [
      | inl small ↦ rw small (refl, inl (refl, ground arith))
      | inr enough ↦ rw enough (elim (Bool-cases (is_empty events)) [
        | inl unknown ↦ rw unknown (refl, inr (inl (refl, is_empty-nil events unknown)))
        | inr known ↦
            rw known
              (elim (Bool-cases (ltb_ℤ (replay_account id events).available_balance amount)) [
                | inl short ↦ rw short (refl, inr (inr (refl, ground arith)))
                | inr covered ↦
                    let added = stream-insert_self id events' m.streams in
                    rw covered (
                      ground arith,
                      ground arith,
                      refl,
                      ap (replay_account id) (sym added),
                      ap (replay_account id) added ∙ replay-append id events debit,
                      λ j h. stream-insert_ne j id events' m.streams h,
                    )
              ])
      ])
    ]
