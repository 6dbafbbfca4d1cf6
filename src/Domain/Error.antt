-- ===== src/Domain/Error.antt =====
-- The errors of internal/domain and internal/eventstore/store.go, with their texts. `other` is an
-- error of code outside the repository (the database, the random source, a compliance checker),
-- `unique_violation` a database error with the code 23505.
use Prim.Native.String.{◌++◌ as concat}
use go_odtbank.Base.{String}
use go_odtbank.Domain.Event.{Money}
use go_odtbank.Domain.Account.{Account}

pub data Error : Type 0 where
  account_not_found : Error
  invalid_transfer_amount : Error
  invalid_deposit_amount : Error
  invalid_withdraw_amount : Error
  out_of_service : Error
  insufficient_funds : Account → Money → Error
  idempotency_key_required : Error
  idempotency_conflict : Error
  transfer_not_found : Error
  invalid_adjustment : Error
  adjustment_not_found : Error
  adjustment_reviewed : Error
  self_approval : Error
  already_reversed : Error
  application_not_found : Error
  invalid_review_status : Error
  application_reviewed : Error
  invalid_rejection_reason : Error
  customer_already_exists : Error
  invalid_credentials : Error
  unauthorized : Error
  forbidden : Error
  concurrency_conflict : Error
  no_snapshot : Error
  invalid_money : Error
  onboarding_invalid : String → String → Error
  unique_violation : String → Error
  other : String → Error

-- `err.Error()`
unfoldable pub error_text : Error → String
error_text account_not_found = "account not found"
error_text invalid_transfer_amount = "invalid transfer amount"
error_text invalid_deposit_amount = "invalid deposit amount"
error_text invalid_withdraw_amount = "invalid withdrawal amount"
error_text out_of_service = "service is out of service"
error_text (insufficient_funds a m) = "insufficient funds in account"
error_text idempotency_key_required = "Idempotency-Key header is required"
error_text idempotency_conflict = "idempotency key was already used with different transfer details"
error_text transfer_not_found = "transfer not found"
error_text invalid_adjustment = "invalid adjustment request"
error_text adjustment_not_found = "adjustment request not found"
error_text adjustment_reviewed = "adjustment request has already been reviewed"
error_text self_approval = "adjustment maker cannot approve their own request"
error_text already_reversed = "transaction has already been reversed"
error_text application_not_found = "application not found"
error_text invalid_review_status = "invalid application status"
error_text application_reviewed = "application has already been reviewed"
error_text invalid_rejection_reason = "rejection reason must contain 1 to 500 characters"
error_text customer_already_exists = "customer already exists"
error_text invalid_credentials = "invalid email or password"
error_text unauthorized = "authentication required"
error_text forbidden = "access denied"
error_text concurrency_conflict = "event store: concurrency conflict on append"
error_text no_snapshot = "event store: no snapshot for aggregate"
error_text invalid_money = "invalid monetary amount"
error_text (onboarding_invalid field message) = concat field (concat " " message)
error_text (unique_violation s) = s
error_text (other s) = s

-- A Go result `(a, err)` of which exactly one half is meant.
pub data Result {ℓ} (A : Type ℓ) : Type ℓ where
  ok : A → Result A
  err : Error → Result A
