-- ===== src/Domain/Transfer.antt =====
-- internal/domain/transfer.go: transfers and the updates of their saga.
use go_odtbank.Base.{ℕ, String, Bool, true, false}
use go_odtbank.Domain.Event.{Money, Time}

-- The constants `TransferPending`, `TransferCompleted` and `TransferFailed`
pub data TransferStatus : Type 0 where
  pending completed failed : TransferStatus

abbrev pub is_pending : TransferStatus → Bool
is_pending pending = true
is_pending completed = false
is_pending failed = false

abbrev pub is_completed : TransferStatus → Bool
is_completed pending = false
is_completed completed = true
is_completed failed = false

-- The constants `SagaCreated` to `SagaReservationCaptured`
pub data SagaStep : Type 0 where
  created funds_reserved compliance_approved ledger_posted reservation_captured : SagaStep

abbrev pub step_eq : SagaStep → SagaStep → Bool
step_eq created created = true
step_eq funds_reserved funds_reserved = true
step_eq compliance_approved compliance_approved = true
step_eq ledger_posted ledger_posted = true
step_eq reservation_captured reservation_captured = true
step_eq _ _ = false

pub record TransferCommand : Type 0 where
  pub amount : Money
  pub source_account_id : String
  pub destination_account_id : String
  pub idempotency_key : String

pub record TransferRecord : Type 0 where
  pub id : String
  pub source_account_id : String
  pub destination_account_id : String
  pub idempotency_key : String
  pub amount : Money
  pub fee : Money
  pub status : TransferStatus
  pub failure_code : String
  pub initial_source_balance : Money
  pub final_source_balance : Money
  pub created_at : Time
  pub updated_at : Time
  pub current_step : SagaStep
  pub compliance_status : String
  pub attempt_count : ℕ
  pub next_attempt_at : Time
  pub last_error : String

pub record TransferSagaUpdate : Type 0 where
  pub expected_step : SagaStep
  pub current_step : SagaStep
  pub status : TransferStatus
  pub failure_code : String
  pub compliance_status : String
  pub last_error : String
  pub attempt_count : ℕ
  pub next_attempt_at : Time
  pub initial_source_balance : Money
  pub final_source_balance : Money
