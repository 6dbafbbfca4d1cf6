-- ===== src/Service/Cash.antt =====
-- internal/service/deposit_service.go and withdraw_service.go. `others` is what other requests do
-- to the store between a call's `Load` and its `Append`, which each take the store's mutex.
pub mod Deposits
pub mod Withdrawals
use go_odtbank.Base.{
  String, Bool, true, false, pos, ltb_ℤ, List, [], ◌∷◌, ◌++◌, length, is_empty, if◌then◌else◌,
}
use go_odtbank.Domain.Event.{Event, Money, Time, money_credited, money_debited}
use go_odtbank.Domain.Account.{Account, DepositReceipt, WithdrawalReceipt, replay_account}
use go_odtbank.Domain.Error.{
  Result, ok, err, invalid_deposit_amount, invalid_withdraw_amount, account_not_found,
  insufficient_funds,
}
use go_odtbank.Store.{MemoryStore, Outcome}
use go_odtbank.Store.Events.{append, load}
use go_odtbank.Store.Transfers.{plain_posting, withdraw_available}

abbrev pub minimum_deposit_amount : Money
minimum_deposit_amount = pos 1000

abbrev pub minimum_withdraw_amount : Money
minimum_withdraw_amount = pos 1000

-- A receipt, if the append was made.
abbrev pub receipt_if {ℓ} : {A : Type ℓ} → A → Result (Unit {0}) → Result A
receipt_if receipt (ok _) = ok receipt
receipt_if receipt (err e) = err e

unfoldable pub deposit_loaded :
    Money → String → Time → Result (List Event) → MemoryStore → Outcome DepositReceipt
deposit_loaded amount id now (err e) m = (err e, m)
deposit_loaded amount id now (ok events) m =
    let credit = money_credited (plain_posting id amount now "MoneyCredited" (length events)) in
    let receipt : DepositReceipt = record {
      initial_account = replay_account id events;
      final_account = replay_account id (events ++ credit ∷ []);
      deposit_amount = amount;
    } in
    let (res, m') = append credit (length events) m in
    if is_empty events then (err account_not_found, m) else (receipt_if receipt res, m')

unfoldable pub deposit :
    (MemoryStore → MemoryStore) → Money → String → Time → MemoryStore → Outcome DepositReceipt
unfolding deposit_loaded
deposit others amount id now m =
    if ltb_ℤ amount minimum_deposit_amount
    then (err invalid_deposit_amount, m)
    else deposit_loaded amount id now (load id m) (others m)

abbrev withdrawal_receipt : Money → Outcome (Account × Account) → Outcome WithdrawalReceipt
withdrawal_receipt amount (ok (initial, final), m) = (
  ok (record { initial_account = initial; final_account = final; withdrawal_amount = amount }),
  m,
)
withdrawal_receipt amount (err e, m) = (err e, m)

-- The memory store withdraws in one step.
unfoldable pub withdraw : Money → String → Time → MemoryStore → Outcome WithdrawalReceipt
withdraw amount id now m =
    if ltb_ℤ amount minimum_withdraw_amount
    then (err invalid_withdraw_amount, m)
    else withdrawal_receipt amount (withdraw_available id amount now m)

-- The path for a store that does not: load, check, append.
unfoldable pub withdraw_loaded :
    Money → String → Time → Result (List Event) → MemoryStore → Outcome WithdrawalReceipt
withdraw_loaded amount id now (err e) m = (err e, m)
withdraw_loaded amount id now (ok events) m =
    let debit = money_debited (plain_posting id amount now "MoneyDebited" (length events)) in
    let initial = replay_account id events in
    let receipt : WithdrawalReceipt = record {
      initial_account = initial;
      final_account = replay_account id (events ++ debit ∷ []);
      withdrawal_amount = amount;
    } in
    let (res, m') = append debit (length events) m in
    if is_empty events
    then (err account_not_found, m)
    else if ltb_ℤ initial.available_balance amount
    then (err (insufficient_funds initial amount), m)
    else (receipt_if receipt res, m')

unfoldable pub withdraw_stepwise :
    (MemoryStore → MemoryStore) → Money → String → Time → MemoryStore → Outcome WithdrawalReceipt
unfolding withdraw_loaded
withdraw_stepwise others amount id now m =
    if ltb_ℤ amount minimum_withdraw_amount
    then (err invalid_withdraw_amount, m)
    else withdraw_loaded amount id now (load id m) (others m)
