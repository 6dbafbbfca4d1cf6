-- ===== src/Postgres/Execution.antt =====
-- internal/eventstore/postgres_store.go: `ExecuteTransfer` and `failTransferTx`. The row of the
-- transfer goes in before the transaction that carries it out.
use go_odtbank.Base.{
  String, Bool, List, true, false, not, ◌||◌, pos, add64, sub64, ltb_ℤ, Option, none, some, lookup,
  insert, length, is_empty, if◌then◌else◌,
}
use go_odtbank.Domain.Event.{Event, Time}
use go_odtbank.Domain.Account.{replay_account}
use go_odtbank.Domain.Error.{ok, idempotency_conflict}
use go_odtbank.Domain.Transfer.{TransferRecord, pending, completed, failed, is_pending, created}
use go_odtbank.Store.Transfers.{same_details}
use go_odtbank.Postgres.{
  Db, Statement, Ending, commits, leaves, exec, transaction, guard, pure, lift, ◌>>=◌, ◌>>◌,
}
use go_odtbank.Postgres.Events.{load_events_tx, insert_event_tx}
use go_odtbank.Postgres.Transfers.{
  insert_transfer, find_transfer_by_key, find_transfer, select_transfer, one_row, no_rows,
  unless_duplicate,
}
use go_odtbank.Postgres.Holds.{
  min_string, max_string, lock_account_tx, post_fee, debit_event, credit_event,
}

-- The row that the statement writes; the database's clock gives the column that it does not name.
abbrev pub pending_row : TransferRecord → Time → TransferRecord
pending_row r clock = record r {
  status = pending;
  failure_code = "";
  initial_source_balance = pos 0;
  final_source_balance = pos 0;
  updated_at = r.created_at;
  current_step = created;
  compliance_status = "";
  attempt_count = 0;
  next_attempt_at = clock;
  last_error = "";
}

-- `UPDATE transfers SET ... WHERE id=$1`
unfoldable pub update_transfer : String → (TransferRecord → TransferRecord) → Statement (Unit {0})
update_transfer id change d = elim (lookup id d.transfers) [
  | none ↦ (ok tt, d)
  | some r ↦ (ok tt, record d { transfers = insert id (change r) d.transfers })
]

abbrev Answer : Type 0
Answer = TransferRecord × Bool

unfoldable pub fail_transfer_tx :
    TransferRecord → String → Bool → Time → Db (Ending (Option Answer))
fail_transfer_tx r code is_new now =
    let failing = λ (t : TransferRecord). record t {
      status = failed;
      failure_code = code;
      initial_source_balance = r.initial_source_balance;
      updated_at = now;
    } in
    do
      exec (update_transfer r.id failing)
      pure (
          commits
            (some (record r { status = failed; failure_code = code; updated_at = now }, is_new)))

-- The postings, and the row with its final balance.
abbrev settle : TransferRecord → Time → List Event → List Event → Db (Ending (Option Answer))
settle r now src dst = do
  src' ← post_fee r now src
  insert_event_tx (debit_event r now (length src'))
  insert_event_tx (credit_event r now (length dst))
  let final = sub64 (sub64 r.initial_source_balance r.amount) r.fee
  let settled = λ (t : TransferRecord). record t {
    status = completed;
    initial_source_balance = r.initial_source_balance;
    final_source_balance = final;
    updated_at = now;
  }
  exec (update_transfer r.id settled)
  pure (
      commits (
        some
          (record r { status = completed; final_source_balance = final; updated_at = now }, true)))

-- The transaction after the locks, for a transfer that is still pending: it fails for want of an
-- account or of funds, by the whole balance, or it is settled.
abbrev carry_out : TransferRecord → Bool → Time → Db (Ending (Option Answer))
carry_out r is_new now = do
  src ← load_events_tx r.source_account_id
  dst ← load_events_tx r.destination_account_id
  let balance = (replay_account r.source_account_id src).balance
  let seen = record r { initial_source_balance = balance }
  if is_empty src || is_empty dst
      then fail_transfer_tx r "account_not_found" is_new now
      else if ltb_ℤ balance (add64 r.amount r.fee)
      then fail_transfer_tx seen "insufficient_funds" is_new now
      else settle seen now src dst

unfoldable pub execute_body : TransferRecord → Bool → Time → Db (Ending (Option Answer))
execute_body r is_new now = do
  lock_account_tx (min_string r.source_account_id r.destination_account_id)
  lock_account_tx (max_string r.source_account_id r.destination_account_id)
  row ← exec (select_transfer r.id)
  t ← lift (one_row no_rows row)
  if is_pending t.status then carry_out r is_new now else pure (leaves none)

-- After the row: a transfer that another call has finished is read again, outside the transaction.
unfoldable pub run_transfer : TransferRecord → Bool → Time → Db Answer
run_transfer r is_new now = do
  answer ← transaction (execute_body r is_new now)
  elim answer [ some a ↦ pure a | none ↦ do t ← find_transfer r.id; pure (t, false) ]

abbrev resume : TransferRecord → Time → Db Answer
resume r now = do
  t ← find_transfer_by_key r.source_account_id r.idempotency_key
  guard (not (same_details t r)) idempotency_conflict
  if is_pending t.status then run_transfer t false now else pure (t, false)

-- `now` is the program's clock, `clock` the database's.
unfoldable pub execute_transfer : TransferRecord → Time → Time → Db Answer
execute_transfer r now clock =
    unless_duplicate (exec (insert_transfer (pending_row r clock))) (run_transfer r true now)
      (resume r now)
