-- ===== src/Store/Execution.antt =====
-- internal/eventstore/memory_store.go: `ExecuteTransfer`, which makes a transfer in one step, without
-- a reservation and without the saga.
use go_odtbank.Base.{
  Bool, true, false, ◌||◌, add64, sub64, ltb_ℤ, none, some, insert, stream, is_empty, if◌then◌else◌,
}
use go_odtbank.Domain.Event.{Time}
use go_odtbank.Domain.Account.{replay_account}
use go_odtbank.Domain.Error.{ok, err, idempotency_conflict}
use go_odtbank.Domain.Transfer.{TransferRecord, completed, failed}
use go_odtbank.Store.{MemoryStore, Outcome}
use go_odtbank.Store.Transfers.{find_existing, same_details, with_fee, with_debit, with_credit}

abbrev stored : TransferRecord → MemoryStore → Outcome (TransferRecord × Bool)
stored r m = (ok (r, true), record m { transfers = insert r.id r m.transfers })

-- A transfer with a new key. The test reads the whole balance, not the available one.
unfoldable pub execute_new : TransferRecord → Time → MemoryStore → Outcome (TransferRecord × Bool)
execute_new r now m =
    let src = stream r.source_account_id m.streams in
    let dst = stream r.destination_account_id m.streams in
    let balance = (replay_account r.source_account_id src).balance in
    let seen = record r { initial_source_balance = balance } in
    let paid = insert r.source_account_id (with_debit r now (with_fee r now src)) m.streams in
    let moved = record m {
      streams = insert r.destination_account_id (with_credit r now dst) paid;
    } in
    if is_empty src || is_empty dst
    then stored (record r { status = failed; failure_code = "account_not_found" }) m
    else if ltb_ℤ balance (add64 r.amount r.fee)
    then stored (record seen { status = failed; failure_code = "insufficient_funds" }) m
    else stored
        (record seen {
          status = completed;
          final_source_balance = sub64 (sub64 balance r.amount) r.fee;
          updated_at = now;
        })
        moved

unfoldable pub execute_transfer :
    TransferRecord → Time → MemoryStore → Outcome (TransferRecord × Bool)
unfolding execute_new
execute_transfer r now m = elim (find_existing r.source_account_id r.idempotency_key m.transfers) [
  | some t ↦ if same_details t r then (ok (t, false), m) else (err idempotency_conflict, m)
  | none ↦ execute_new r now m
]
