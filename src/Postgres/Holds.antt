-- ===== src/Postgres/Holds.antt =====
-- internal/eventstore/postgres_store.go: the methods that run a transaction on the accounts, with the
-- statements on `account_reservations` and `ledger_postings`. The deferred rollback ends a transaction
-- that returns without `Commit`.
pub mod Atomicity
pub mod Reserve
pub mod Post
pub mod Finish
pub mod Withdraw
pub mod Retries
use Prim.Native.String.{compare}
use text.Mathlib.Text.{is_lt}
use go_odtbank.Base.{
  ℕ, String, Bool, true, false, not, ◌||◌, pos, add64, ltb_ℤ, List, [], ◌∷◌, ◌++◌, Option, none,
  some, lookup, insert, length, is_empty, if◌then◌else◌,
}
use go_odtbank.Domain.Event.{Event, Money, Time, money_debited, money_credited, funds_reserved}
use go_odtbank.Domain.Account.{Account, replay_account}
use go_odtbank.Domain.Error.{
  Result, ok, err, other, unique_violation, account_not_found, insufficient_funds,
  idempotency_conflict,
}
use go_odtbank.Domain.Transfer.{TransferRecord}
use go_odtbank.Store.{MemoryReservation, HoldState, reserved, captured, released}
use go_odtbank.Store.Transfers.{
  hold_event, transfer_posting, plain_posting, hold_state_eq, closing_event, closing_name,
}
use go_odtbank.Postgres.{
  Database, Db, Statement, Ending, commits, leaves, exec, transaction, guard, pure, raise, lift,
  ◌>>=◌, ◌>>◌,
}
use go_odtbank.Postgres.Events.{load_events_tx, insert_event_tx}
use go_odtbank.Postgres.Transfers.{is_some}

abbrev pub min_string : String → String → String
min_string a b = if is_lt (compare a b) then a else b

abbrev pub max_string : String → String → String
max_string a b = if is_lt (compare b a) then a else b

-- `pg_advisory_xact_lock`, which changes no table.
abbrev pub lock : String → Statement (Unit {0})
lock id d = (ok tt, d)

unfoldable pub lock_account_tx : String → Db (Unit {0})
lock_account_tx id = exec (lock id)

abbrev pub select_reservation : String → Statement (Option MemoryReservation)
select_reservation id d = (ok (lookup id d.account_reservations), d)

-- `INSERT INTO account_reservations`: the key, the check of the amount and the transfer's reference.
unfoldable pub insert_reservation : String → MemoryReservation → Statement (Unit {0})
insert_reservation id h d =
    if not (ltb_ℤ (pos 0) h.amount)
    then (err (other "violates check constraint"), d)
    else if is_some (lookup id d.account_reservations)
    then (err (unique_violation "account_reservations_pkey"), d)
    else if not (is_some (lookup id d.transfers))
    then (err (other "violates foreign key constraint"), d)
    else (ok tt, record d { account_reservations = insert id h d.account_reservations })

abbrev pub current_balance : String → Db (Ending Money)
current_balance id = do events ← load_events_tx id; pure (leaves (replay_account id events).balance)

-- `ReserveTransferFunds` for a transfer that holds nothing yet: after the events are read, and before.
abbrev pub reserve_checked : TransferRecord → Time → List Event → List Event → Db (Ending Money)
reserve_checked r at src dst =
    let a = replay_account r.source_account_id src in
    let amount = add64 r.amount r.fee in
    do
      guard (is_empty src || is_empty dst) account_not_found
      guard (ltb_ℤ a.available_balance amount) (insufficient_funds a amount)
      exec (
          insert_reservation r.id
            (record { account_id = r.source_account_id; amount = amount; state = reserved }))
      insert_event_tx
          (funds_reserved (hold_event r r.source_account_id amount at "FundsReserved" (length src)))
      pure (commits a.balance)

abbrev pub new_reservation : TransferRecord → Time → Db (Ending Money)
new_reservation r at = do
  src ← load_events_tx r.source_account_id
  dst ← load_events_tx r.destination_account_id
  reserve_checked r at src dst

unfoldable pub reserve_body : TransferRecord → Time → Db (Ending Money)
reserve_body r at = do
  lock_account_tx r.source_account_id
  held ← exec (select_reservation r.id)
  if is_some held then current_balance r.source_account_id else new_reservation r at

unfoldable pub reserve_transfer_funds : TransferRecord → Time → Db Money
reserve_transfer_funds r at = transaction (reserve_body r at)

-- `INSERT INTO ledger_postings`
unfoldable pub insert_posting : String → Time → Statement (Unit {0})
insert_posting id at d =
    if is_some (lookup id d.ledger_postings)
    then (err (unique_violation "ledger_postings_pkey"), d)
    else if not (is_some (lookup id d.transfers))
    then (err (other "violates foreign key constraint"), d)
    else (ok tt, record d { ledger_postings = insert id at d.ledger_postings })

abbrev pub select_posted : String → Statement Bool
select_posted id d = (ok (is_some (lookup id d.ledger_postings)), d)

abbrev pub fee_event : TransferRecord → Time → ℕ → Event
fee_event r at seq = money_debited (
    transfer_posting r r.source_account_id r.destination_account_id r.fee "fee" "MoneyDebited" at
      seq)

abbrev pub debit_event : TransferRecord → Time → ℕ → Event
debit_event r at seq = money_debited (
    transfer_posting r r.source_account_id r.destination_account_id r.amount "transfer"
      "MoneyDebited" at seq)

abbrev pub credit_event : TransferRecord → Time → ℕ → Event
credit_event r at seq = money_credited (
    transfer_posting r r.destination_account_id r.source_account_id r.amount "transfer"
      "MoneyCredited" at seq)

-- The fee's event, if there is a fee, and the source's events with it.
unfoldable pub post_fee : TransferRecord → Time → List Event → Db (List Event)
post_fee r at src =
    let fee = fee_event r at (length src) in
    if ltb_ℤ (pos 0) r.fee then (do insert_event_tx fee; pure (src ++ fee ∷ [])) else pure src

-- `PostTransferLedger` for a transfer that is not posted, from its end: after the fee, after the
-- events are read, and before.
abbrev pub post_settled : TransferRecord → Time → List Event → List Event → Db (Ending Money)
post_settled r at src' dst =
    let debit = debit_event r at (length src') in
    do
      insert_event_tx debit
      insert_event_tx (credit_event r at (length dst))
      exec (insert_posting r.id at)
      pure (commits (replay_account r.source_account_id (src' ++ debit ∷ [])).balance)

abbrev pub post_loaded : TransferRecord → Time → List Event → List Event → Db (Ending Money)
post_loaded r at src dst = do src' ← post_fee r at src; post_settled r at src' dst

abbrev pub new_posting : TransferRecord → Time → Db (Ending Money)
new_posting r at = do
  src ← load_events_tx r.source_account_id
  dst ← load_events_tx r.destination_account_id
  post_loaded r at src dst

unfoldable pub post_body : TransferRecord → Time → Db (Ending Money)
post_body r at = do
  lock_account_tx (min_string r.source_account_id r.destination_account_id)
  lock_account_tx (max_string r.source_account_id r.destination_account_id)
  posted ← exec (select_posted r.id)
  if posted then current_balance r.source_account_id else new_posting r at

unfoldable pub post_transfer_ledger : TransferRecord → Time → Db Money
post_transfer_ledger r at = transaction (post_body r at)

-- `UPDATE account_reservations SET state=$2 ... WHERE transfer_id=$1`
unfoldable pub update_reservation : String → HoldState → Statement (Unit {0})
update_reservation id state d = elim (lookup id d.account_reservations) [
  | none ↦ (ok tt, d)
  | some h ↦ (
    ok tt,
    record d {
      account_reservations = insert id (record h { state = state }) d.account_reservations;
    },
  )
]

-- The part of `finishTransferReservation` for funds that are held.
abbrev pub close_hold :
    TransferRecord → Time → HoldState → MemoryReservation → Db (Ending (Unit {0}))
close_hold r at target h = do
  events ← load_events_tx h.account_id
  insert_event_tx (
      closing_event target
        (hold_event r h.account_id h.amount at (closing_name target) (length events)))
  exec (update_reservation r.id target)
  pure (commits tt)

abbrev pub finish_held :
    TransferRecord → Time → HoldState → Option MemoryReservation → Db (Ending (Unit {0}))
finish_held r at target none = pure (leaves tt)
finish_held r at target (some h) =
    if hold_state_eq h.state target
    then pure (leaves tt)
    else if not (hold_state_eq h.state reserved)
    then raise idempotency_conflict
    else close_hold r at target h

unfoldable pub finish_body : TransferRecord → Time → HoldState → Db (Ending (Unit {0}))
finish_body r at target = do
  lock_account_tx r.source_account_id
  held ← exec (select_reservation r.id)
  finish_held r at target held

unfoldable pub finish_transfer_reservation : TransferRecord → Time → HoldState → Db (Unit {0})
finish_transfer_reservation r at target = transaction (finish_body r at target)

unfoldable pub capture_transfer_reservation : TransferRecord → Time → Db (Unit {0})
capture_transfer_reservation r at = finish_transfer_reservation r at captured

unfoldable pub release_transfer_reservation : TransferRecord → Time → Db (Unit {0})
release_transfer_reservation r at = finish_transfer_reservation r at released

-- `WithdrawAvailable` after the events are read.
abbrev pub withdraw_loaded : String → Money → Time → List Event → Db (Ending (Account × Account))
withdraw_loaded id amount at events =
    let initial = replay_account id events in
    let e = money_debited (plain_posting id amount at "MoneyDebited" (length events)) in
    do
      guard (is_empty events) account_not_found
      guard (ltb_ℤ initial.available_balance amount) (insufficient_funds initial amount)
      insert_event_tx e
      pure (commits (initial, replay_account id (events ++ e ∷ [])))

unfoldable pub withdraw_body : String → Money → Time → Db (Ending (Account × Account))
withdraw_body id amount at = do
  lock_account_tx id
  events ← load_events_tx id
  withdraw_loaded id amount at events

unfoldable pub withdraw_available : String → Money → Time → Db (Account × Account)
withdraw_available id amount at = transaction (withdraw_body id amount at)
