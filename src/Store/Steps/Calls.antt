-- ===== src/Store/Steps/Calls.antt =====
-- The methods of the memory store that change it as one relation. Each holds the mutex throughout.
use go_odtbank.Base.{arith, String, ◌≡◌, [], stream}
use go_odtbank.Domain.Event.{Event, Money, Time, version}
use go_odtbank.Domain.Transfer.{TransferRecord, TransferSagaUpdate}
use go_odtbank.Domain.Adjustment.{AdjustmentRequest}
use go_odtbank.Domain.Customer.{Customer, Admin, Session}
use go_odtbank.Store.{MemoryStore, HoldState}
use go_odtbank.Store.Events.{append}
use go_odtbank.Store.Transfers.{
  create_transfer, update_transfer_saga, reserve_transfer_funds, record_compliance_decision,
  post_transfer_ledger, finish_reservation, withdraw_available,
}
use go_odtbank.Store.Execution.{execute_transfer}
use go_odtbank.Store.Adjustments.{create_adjustment, approve_adjustment, reject_adjustment}
use go_odtbank.Store.Customers.{
  create_customer_application, upsert_admin, create_session, delete_session, approve_application,
  reject_application,
}
use go_odtbank.Store.Streams.{StoreInv, Keeps, same-Keeps}
use go_odtbank.Store.Steps.Postings.{post-Keeps, execute-Keeps}
use go_odtbank.Store.Steps.Growth.{
  append-Grows, Grows-Keeps, reserve-Grows, finish-Grows, withdraw-Grows,
}
use go_odtbank.Store.Steps.Reviews.{approve_adjustment-Keeps, approve_application-Keeps}

-- A call of a method, with any arguments but these, which are those the program makes: an event is
-- appended at the version that it carries, and an account is opened under a fresh identifier. Nothing
-- but FindByID saves snapshots, in a step of its own.
pub data Call (m : MemoryStore) : MemoryStore → Type 0 where
  appends : (e : Event) → Call m (append e (version e) m).1
  accepts : (r : TransferRecord) → Call m (create_transfer r m).1
  updates :
      (id : String) (u : TransferSagaUpdate) (at : Time) → Call m (update_transfer_saga id u at m).1
  reserves : (r : TransferRecord) (at : Time) → Call m (reserve_transfer_funds r at m).1
  decides :
      (id decision : String) (at : Time) → Call m (record_compliance_decision id decision at m).1
  posts : (r : TransferRecord) (at : Time) → Call m (post_transfer_ledger r at m).1
  executes : (r : TransferRecord) (at : Time) → Call m (execute_transfer r at m).1
  finishes :
      (r : TransferRecord) (at : Time) (s : HoldState) → Call m (finish_reservation r at s m).1
  withdraws :
      (id : String) (amount : Money) (at : Time) → Call m (withdraw_available id amount at m).1
  requests : (r : AdjustmentRequest) → Call m (create_adjustment r m).1
  approves_adjustment :
      (id admin : String) (at : Time) → Call m (approve_adjustment id admin at m).1
  rejects_adjustment :
      (id admin reason : String) (at : Time) → Call m (reject_adjustment id admin reason at m).1
  applies : (c : Customer) → Call m (create_customer_application c m).1
  upserts : (a : Admin) → Call m (upsert_admin a m).1
  logs_in : (s : Session) → Call m (create_session s m).1
  logs_out : (token_hash : String) → Call m (delete_session token_hash m).1
  approves_application :
      (id admin account : String) (at : Time)
      → stream account m.streams ≡ []
      → Call m (approve_application id admin account at m).1
  rejects_application :
      (id admin reason : String) (at : Time) → Call m (reject_application id admin reason at m).1

-- Events and snapshots are as they were.
abbrev Untouched : MemoryStore → MemoryStore → Type 0
Untouched m m' = (m'.streams ≡ m.streams) × (m'.snapshots ≡ m.snapshots)

create_transfer_lem : (r : TransferRecord) (m : MemoryStore) → Untouched m (create_transfer r m).1
unfolding create_transfer
create_transfer_lem r m = ground arith

update_transfer_saga_lem :
    (id : String) (u : TransferSagaUpdate) (at : Time) (m : MemoryStore)
    → Untouched m (update_transfer_saga id u at m).1
unfolding update_transfer_saga
update_transfer_saga_lem id u at m = ground arith

record_compliance_decision_lem :
    (id decision : String) (at : Time) (m : MemoryStore)
    → Untouched m (record_compliance_decision id decision at m).1
unfolding record_compliance_decision
record_compliance_decision_lem id decision at m = ground arith

create_adjustment_lem :
    (r : AdjustmentRequest) (m : MemoryStore) → Untouched m (create_adjustment r m).1
unfolding create_adjustment
create_adjustment_lem r m = ground arith

reject_adjustment_lem :
    (id admin reason : String) (at : Time) (m : MemoryStore)
    → Untouched m (reject_adjustment id admin reason at m).1
unfolding reject_adjustment
reject_adjustment_lem id admin reason at m = ground arith

create_customer_application_lem :
    (c : Customer) (m : MemoryStore) → Untouched m (create_customer_application c m).1
unfolding create_customer_application
create_customer_application_lem c m = ground arith

upsert_admin_lem : (a : Admin) (m : MemoryStore) → Untouched m (upsert_admin a m).1
unfolding upsert_admin
upsert_admin_lem a m = ground arith

create_session_lem : (s : Session) (m : MemoryStore) → Untouched m (create_session s m).1
unfolding create_session
create_session_lem s m = ground arith

delete_session_lem : (h : String) (m : MemoryStore) → Untouched m (delete_session h m).1
unfolding delete_session
delete_session_lem h m = ground arith

reject_application_lem :
    (id admin reason : String) (at : Time) (m : MemoryStore)
    → Untouched m (reject_application id admin reason at m).1
unfolding reject_application
reject_application_lem id admin reason at m = ground arith

Untouched-Keeps : (m m' : MemoryStore) → Untouched m m' → StoreInv m → Keeps m m'
Untouched-Keeps m m' u inv = same-Keeps m m' inv u.0 u.1

-- A call of any method keeps the streams numbered by position and the snapshots true.
pub Call-Keeps : {m m' : MemoryStore} → Call m m' → StoreInv m → Keeps m m'
Call-Keeps {m} (appends e) inv = Grows-Keeps m _ (append-Grows e m) inv
Call-Keeps {m} (accepts r) inv = Untouched-Keeps m _ (create_transfer_lem r m) inv
Call-Keeps {m} (updates id u at) inv = Untouched-Keeps m _ (update_transfer_saga_lem id u at m) inv
Call-Keeps {m} (reserves r at) inv = Grows-Keeps m _ (reserve-Grows r at m) inv
Call-Keeps {m} (decides id decision at) inv =
    Untouched-Keeps m _ (record_compliance_decision_lem id decision at m) inv
Call-Keeps {m} (posts r at) inv = post-Keeps r at m inv
Call-Keeps {m} (executes r at) inv = execute-Keeps r at m inv
Call-Keeps {m} (finishes r at s) inv = Grows-Keeps m _ (finish-Grows r at s m) inv
Call-Keeps {m} (withdraws id amount at) inv = Grows-Keeps m _ (withdraw-Grows id amount at m) inv
Call-Keeps {m} (requests r) inv = Untouched-Keeps m _ (create_adjustment_lem r m) inv
Call-Keeps {m} (approves_adjustment id admin at) inv = approve_adjustment-Keeps id admin at m inv
Call-Keeps {m} (rejects_adjustment id admin reason at) inv =
    Untouched-Keeps m _ (reject_adjustment_lem id admin reason at m) inv
Call-Keeps {m} (applies c) inv = Untouched-Keeps m _ (create_customer_application_lem c m) inv
Call-Keeps {m} (upserts a) inv = Untouched-Keeps m _ (upsert_admin_lem a m) inv
Call-Keeps {m} (logs_in s) inv = Untouched-Keeps m _ (create_session_lem s m) inv
Call-Keeps {m} (logs_out h) inv = Untouched-Keeps m _ (delete_session_lem h m) inv
Call-Keeps {m} (approves_application id admin account at new) inv =
    approve_application-Keeps id admin account at m new inv
Call-Keeps {m} (rejects_application id admin reason at) inv =
    Untouched-Keeps m _ (reject_application_lem id admin reason at m) inv
