-- ===== src/Domain/Adjustment.antt =====
-- internal/domain/adjustment.go: dual-control corrections and reversals.
use go_odtbank.Base.{String, ℤ, Bool, true, false, Option}
use go_odtbank.Domain.Event.{Money, Time}

-- The constants `AdjustmentWaiting`, `AdjustmentApproved` and `AdjustmentRejected`
pub data AdjustmentStatus : Type 0 where
  waiting approved rejected : AdjustmentStatus

abbrev pub is_waiting : AdjustmentStatus → Bool
is_waiting waiting = true
is_waiting approved = false
is_waiting rejected = false

abbrev pub is_rejected : AdjustmentStatus → Bool
is_rejected waiting = false
is_rejected approved = false
is_rejected rejected = true

-- `Type` and `Direction` come from the client, and are texts; the sequence number is `*int`.
pub record AdjustmentRequest : Type 0 where
  pub id : String
  pub kind : String
  pub status : AdjustmentStatus
  pub account_id : String
  pub direction : String
  pub amount : Money
  pub fee : Money
  pub counterparty_account_id : String
  pub original_transfer_id : String
  pub original_account_id : String
  pub original_event_sequence : Option ℤ
  pub reason : String
  pub case_reference : String
  pub created_by : String
  pub reviewed_by : String
  pub rejection_reason : String
  pub created_at : Time
  pub reviewed_at : Option Time

abbrev pub manual : String
manual = "manual"

abbrev pub reversal : String
reversal = "reversal"
