-- ===== src/Postgres.antt =====
-- internal/eventstore/postgres_store.go, with the tables of migrations: the state of the database,
-- and calls of it. A statement is a function on the tables. A transaction takes its locks first,
-- so it runs as one step; what the other side may do wrong is a fault, of any call.
pub mod Json
pub mod Events
pub mod Transfers
pub mod Holds
pub mod Execution
pub mod Adjustments
pub mod Customers
pub mod Sessions
pub mod Reviews
pub mod Runs
pub mod Steady
pub mod Represents
use Prim.Native.String.{◌++◌ as concat}
use go_odtbank.Base.{ℕ, ◌+◌, String, Bool, Option, none, some, List, [], Dict, if◌then◌else◌}
use go_odtbank.Domain.Event.{Time}
use go_odtbank.Domain.Account.{AccountSnapshot}
use go_odtbank.Domain.Error.{Error, Result, ok, err, other, error_text}
use go_odtbank.Domain.Transfer.{TransferRecord}
use go_odtbank.Domain.Adjustment.{AdjustmentRequest}
use go_odtbank.Domain.Customer.{Customer, Admin, Session}
use go_odtbank.Store.{MemoryReservation}
use go_odtbank.Postgres.Json.{Payload}

-- A row of `events` without its aggregate.
pub record EventRow : Type 0 where
  pub sequence : ℕ
  pub event_type : String
  pub payload : Payload
  pub occurred_at : Time

-- The tables by their primary keys; `passport_object_keys` is that column of `customers`, and
-- `passport_objects` is not a table but the store of objects that the program also calls. The rows of an aggregate in `events` stand in the order of the
-- sequence, as the key's index gives them.
pub record Database : Type 0 where
  pub events : Dict (List EventRow)
  pub account_snapshots : Dict AccountSnapshot
  pub transfers : Dict TransferRecord
  pub account_reservations : Dict MemoryReservation
  pub compliance_decisions : Dict String
  pub ledger_postings : Dict Time
  pub adjustment_requests : Dict AdjustmentRequest
  pub customers : Dict Customer
  pub admins : Dict Admin
  pub sessions : Dict Session
  pub passport_object_keys : Dict String
  pub passport_objects : Dict (List ℕ)

abbrev pub empty_database : Database
empty_database = record {
  events = [];
  account_snapshots = [];
  transfers = [];
  account_reservations = [];
  compliance_decisions = [];
  ledger_postings = [];
  adjustment_requests = [];
  customers = [];
  admins = [];
  sessions = [];
  passport_object_keys = [];
  passport_objects = [];
}

-- A call that fails for a reason of its own has either not been carried out, or has been, and only
-- its answer is lost.
pub data Fault : Type 0 where
  refused lost : Error → Fault

-- The fault of the k-th call, if it has one.
abbrev pub Faults : Type 0
Faults = ℕ → Option Fault

-- No call fails.
abbrev pub quiet : Faults
quiet k = none

-- The tables, and how many calls have been made.
pub record Wire : Type 0 where
  pub calls : ℕ
  pub tables : Database

abbrev pub Db : Type 0 → Type 0
Db A = Faults → Wire → Result A × Wire

module _ {A : Type 0} where
  abbrev pub pure : A → Db A
  pure a faults w = (ok a, w)

  abbrev pub raise : Error → Db A
  raise e faults w = (err e, w)

  abbrev pub lift : Result A → Db A
  lift r faults w = (r, w)

unfoldable pub after : {A B : Type 0} → (A → Db B) → Faults → Result A × Wire → Result B × Wire
after k faults (ok a, w) = k a faults w
after k faults (err e, w) = (err e, w)

infixl 5 ◌>>=◌ ◌>>◌
abbrev pub ◌>>=◌ : {A B : Type 0} → Db A → (A → Db B) → Db B
◌>>=◌ m k faults w = after k faults (m faults w)

abbrev pub ◌>>◌ : {A B : Type 0} → Db A → Db B → Db B
m >> k = m >>= λ _. k

-- `fmt.Errorf("<prefix>%w", err)` on what a call returns.
abbrev pub prefixed : {A : Type 0} → String → Result A × Wire → Result A × Wire
prefixed prefix (ok a, w) = (ok a, w)
prefixed prefix (err e, w) = (err (other (concat prefix (error_text e))), w)

abbrev pub wrapped : {A : Type 0} → String → Db A → Db A
wrapped prefix m faults w = prefixed prefix (m faults w)

-- `if c { return err }`
abbrev pub guard : Bool → Error → Db (Unit {0})
guard c e = if c then raise e else pure tt

-- One statement. A statement that fails by itself changes nothing.
abbrev pub Statement : Type 0 → Type 0
Statement A = Database → Result A × Database

abbrev pub answered : {A : Type 0} → Statement A → Wire → Option Fault → Result A × Wire
answered s w none = let (r, d) = s w.tables in (r, record { calls = w.calls + 1; tables = d })
answered s w (some (refused e)) = (err e, record w { calls = w.calls + 1 })
answered s w (some (lost e)) = (err e, record { calls = w.calls + 1; tables = (s w.tables).1 })

unfoldable pub exec : {A : Type 0} → Statement A → Db A
exec s faults w = answered s w (faults w.calls)

-- How the body of a transaction ends when no error does: it commits, or it returns and the deferred
-- rollback ends it.
pub data Ending (A : Type 0) : Type 0 where
  commits leaves : A → Ending A

-- `Commit`
abbrev pub committed : {A : Type 0} → Database → A → Wire → Option Fault → Result A × Wire
committed before a w none = (ok a, record w { calls = w.calls + 1 })
committed before a w (some (refused e)) = (err e, record { calls = w.calls + 1; tables = before })
committed before a w (some (lost e)) = (err e, record w { calls = w.calls + 1 })

-- The end of the body; an error, or a return without `Commit`, takes back what the body has written.
abbrev pub finish_with :
    {A : Type 0} → Database → Faults → Result (Ending A) × Wire → Result A × Wire
finish_with before faults (err e, w) = (err e, record w { tables = before })
finish_with before faults (ok (leaves a), w) = (ok a, record w { tables = before })
finish_with before faults (ok (commits a), w) = committed before a w (faults w.calls)

-- `Begin`, and what follows it unless it fails.
abbrev pub begun : {A : Type 0} → Db (Ending A) → Faults → Wire → Option Fault → Result A × Wire
begun body faults w none =
    finish_with w.tables faults (body faults (record w { calls = w.calls + 1 }))
begun body faults w (some (refused e)) = (err e, record w { calls = w.calls + 1 })
begun body faults w (some (lost e)) = (err e, record w { calls = w.calls + 1 })

unfoldable pub transaction : {A : Type 0} → Db (Ending A) → Db A
transaction body faults w = begun body faults w (faults w.calls)
