-- ===== src/Http.antt =====
-- internal/httpapi/router.go: the status code of an error.
use go_odtbank.Base.{ℕ}
use go_odtbank.Domain.Error.{
  Error, invalid_transfer_amount, invalid_deposit_amount, invalid_withdraw_amount, out_of_service,
  account_not_found, concurrency_conflict, customer_already_exists, application_not_found,
  application_reviewed, invalid_review_status, invalid_rejection_reason, idempotency_key_required,
  invalid_money, idempotency_conflict, transfer_not_found, forbidden, invalid_adjustment,
  adjustment_not_found, adjustment_reviewed, self_approval, already_reversed, insufficient_funds,
}

-- `errors.Is` and `errors.As` look through wrapping, and the services wrap none of these errors.
unfoldable pub status_for_error : Error → ℕ
status_for_error invalid_transfer_amount = 400
status_for_error invalid_deposit_amount = 400
status_for_error invalid_withdraw_amount = 400
status_for_error out_of_service = 503
status_for_error account_not_found = 404
status_for_error concurrency_conflict = 409
status_for_error customer_already_exists = 409
status_for_error application_not_found = 404
status_for_error application_reviewed = 409
status_for_error invalid_review_status = 400
status_for_error invalid_rejection_reason = 400
status_for_error idempotency_key_required = 400
status_for_error invalid_money = 400
status_for_error idempotency_conflict = 409
status_for_error transfer_not_found = 404
status_for_error forbidden = 403
status_for_error invalid_adjustment = 400
status_for_error adjustment_not_found = 404
status_for_error adjustment_reviewed = 409
status_for_error self_approval = 409
status_for_error already_reversed = 409
status_for_error (insufficient_funds a x) = 422
status_for_error _ = 500
