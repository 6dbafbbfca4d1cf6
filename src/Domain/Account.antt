-- ===== src/Domain/Account.antt =====
-- internal/domain/account.go: an account is a fold over its event stream.
pub mod Balances
pub mod Snapshots
pub mod Appends
use go_odtbank.Base.{
  ℕ, String, ℤ, pos, List, [], ◌∷◌, Option, none, some, add64, sub64, leb, str_eq, ◌&&◌,
  if◌then◌else◌,
}
use go_odtbank.Domain.Event.{
  Event, Money, Time, account_opened, money_credited, money_debited, funds_reserved,
  reservation_captured, reservation_released, version,
}

pub record Account : Type 0 where
  pub id : String
  pub balance : Money
  pub reserved_balance : Money
  pub available_balance : Money

pub record AccountSnapshot : Type 0 where
  pub aggregate_id : String
  pub balance : Money
  pub reserved_balance : Money
  pub available_balance : Money
  pub as_of_sequence : ℕ
  pub occurred_at : Time

pub record DepositReceipt : Type 0 where
  pub initial_account : Account
  pub final_account : Account
  pub deposit_amount : Money

pub record WithdrawalReceipt : Type 0 where
  pub initial_account : Account
  pub final_account : Account
  pub withdrawal_amount : Money

pub record TransferCompletedEvent : Type 0 where
  pub timestamp : Time
  pub transfer_id : String
  pub amount : Money
  pub source_account_id : String
  pub destination_account_id : String
  pub fee : Money

unfoldable pub fold : Account → Event → Account
fold a (account_opened e) = record a { balance = e.initial_balance }
fold a (money_credited e) = record a { balance = add64 a.balance e.amount }
fold a (money_debited e) = record a { balance = sub64 a.balance e.amount }
fold a (funds_reserved e) = record a { reserved_balance = add64 a.reserved_balance e.amount }
fold a (reservation_captured e) = record a { reserved_balance = sub64 a.reserved_balance e.amount }
fold a (reservation_released e) = record a { reserved_balance = sub64 a.reserved_balance e.amount }

-- The loop over all events.
unfoldable pub fold_all : Account → List Event → Account
fold_all a [] = a
fold_all a (e ∷ es) = fold_all (fold a e) es

-- The loop that skips what the snapshot already includes.
unfoldable pub fold_after : ℕ → Account → List Event → Account
fold_after cutoff a [] = a
fold_after cutoff a (e ∷ es) = fold_after cutoff (if leb (version e) cutoff then a else fold a e) es

abbrev pub with_available : Account → Account
with_available a = record a { available_balance = sub64 a.balance a.reserved_balance }

abbrev pub empty_account : String → Account
empty_account id = record {
  id = id;
  balance = pos 0;
  reserved_balance = pos 0;
  available_balance = pos 0;
}

abbrev pub resumed : String → AccountSnapshot → Account
resumed id snap = record (empty_account id) {
  balance = snap.balance;
  reserved_balance = snap.reserved_balance;
}

unfoldable pub replay_account_from : String → Option AccountSnapshot → List Event → Account
replay_account_from id none events = with_available (fold_all (empty_account id) events)
replay_account_from id (some snap) events =
    if str_eq snap.aggregate_id id
    then with_available (fold_after snap.as_of_sequence (resumed id snap) events)
    else with_available (fold_all (empty_account id) events)

unfoldable pub replay_account : String → List Event → Account
unfolding replay_account_from
replay_account id events = replay_account_from id none events
