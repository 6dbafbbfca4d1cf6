-- ===== src/Store.antt =====
-- internal/eventstore/memory_store.go: the state of `MemoryStore`, and the shape of its methods. The
-- mutex makes each method one step, so a method is a function from the state before to the result
-- and the state after.
pub mod Events
pub mod Streams
pub mod Steps
pub mod Transfers
pub mod Execution
pub mod Adjustments
pub mod Customers
use go_odtbank.Base.{String, List, [], Bool, Dict, stream}
use go_odtbank.Domain.Event.{Event, Money}
use go_odtbank.Domain.Account.{Account, AccountSnapshot, replay_account}
use go_odtbank.Domain.Error.{Result}
use go_odtbank.Domain.Transfer.{TransferRecord}
use go_odtbank.Domain.Adjustment.{AdjustmentRequest}
use go_odtbank.Domain.Customer.{Customer, Admin, Session}

-- The texts "reserved", "captured" and "released"
pub data HoldState : Type 0 where
  reserved captured released : HoldState

pub record MemoryReservation : Type 0 where
  pub account_id : String
  pub amount : Money
  pub state : HoldState

pub record MemoryStore : Type 0 where
  pub streams : Dict (List Event)
  pub snapshots : Dict AccountSnapshot
  pub customers : Dict Customer
  pub admins : Dict Admin
  pub sessions : Dict Session
  pub transfers : Dict TransferRecord
  pub adjustments : Dict AdjustmentRequest
  pub reservations : Dict MemoryReservation
  pub ledger_postings : Dict Bool
  pub compliance_decisions : Dict String

abbrev pub new_memory_store : MemoryStore
new_memory_store = record {
  streams = [];
  snapshots = [];
  customers = [];
  admins = [];
  sessions = [];
  transfers = [];
  adjustments = [];
  reservations = [];
  ledger_postings = [];
  compliance_decisions = [];
}

-- The result of a method, and the store that it leaves.
abbrev pub Outcome : Type 0 → Type 0
Outcome A = Result A × MemoryStore

-- The account that the store's events add up to.
abbrev pub account_of : String → MemoryStore → Account
account_of id m = replay_account id (stream id m.streams)
