-- ===== src/Domain/Event.antt =====
-- internal/domain/events.go: the stored events of an account. The Go structs with the same fields
-- share a record here; the constructor of `Event` tells them apart. An instant of time is a number
-- of nanoseconds, and the zero time is 0.
use go_odtbank.Base.{ℕ, String, ℤ}

abbrev pub Time : Type 0
Time = ℕ

-- An amount of cents, held in an int64.
abbrev pub Money : Type 0
Money = ℤ

pub record Opening : Type 0 where
  pub aggregate : String
  pub event_type : String
  pub seq : ℕ
  pub occurred : Time
  pub id : String
  pub initial_balance : Money

-- `MoneyDebited` and `MoneyCredited`
pub record Posting : Type 0 where
  pub aggregate : String
  pub event_type : String
  pub seq : ℕ
  pub occurred : Time
  pub id : String
  pub amount : Money
  pub transfer_id : String
  pub purpose : String
  pub counterparty_account_id : String
  pub adjustment_id : String
  pub adjustment_reason : String
  pub case_reference : String
  pub original_reference : String

-- `FundsReserved`, `ReservationCaptured` and `ReservationReleased`
pub record Hold : Type 0 where
  pub aggregate : String
  pub event_type : String
  pub seq : ℕ
  pub occurred : Time
  pub id : String
  pub amount : Money
  pub transfer_id : String

pub data Event : Type 0 where
  account_opened : Opening → Event
  money_credited : Posting → Event
  money_debited : Posting → Event
  funds_reserved : Hold → Event
  reservation_captured : Hold → Event
  reservation_released : Hold → Event

abbrev pub aggregate_id : Event → String
aggregate_id (account_opened e) = e.aggregate
aggregate_id (money_credited e) = e.aggregate
aggregate_id (money_debited e) = e.aggregate
aggregate_id (funds_reserved e) = e.aggregate
aggregate_id (reservation_captured e) = e.aggregate
aggregate_id (reservation_released e) = e.aggregate

abbrev pub version : Event → ℕ
version (account_opened e) = e.seq
version (money_credited e) = e.seq
version (money_debited e) = e.seq
version (funds_reserved e) = e.seq
version (reservation_captured e) = e.seq
version (reservation_released e) = e.seq

abbrev pub occurred_at : Event → Time
occurred_at (account_opened e) = e.occurred
occurred_at (money_credited e) = e.occurred
occurred_at (money_debited e) = e.occurred
occurred_at (funds_reserved e) = e.occurred
occurred_at (reservation_captured e) = e.occurred
occurred_at (reservation_released e) = e.occurred

abbrev pub event_type : Event → String
event_type (account_opened e) = e.event_type
event_type (money_credited e) = e.event_type
event_type (money_debited e) = e.event_type
event_type (funds_reserved e) = e.event_type
event_type (reservation_captured e) = e.event_type
event_type (reservation_released e) = e.event_type
