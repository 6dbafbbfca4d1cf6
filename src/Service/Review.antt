-- ===== src/Service/Review.antt =====
-- internal/service/review_service.go: the review of applications.
use Prim.Native.String.{◌++◌ as concat}
use go_odtbank.Base.{
  ℕ, ◌==◌, String, ◌||◌, ltb, List, Option, none, some, str_eq, trim_space, byte_length,
  if◌then◌else◌,
}
use go_odtbank.Domain.Event.{Time}
use go_odtbank.Domain.Error.{Result, ok, err, invalid_review_status, invalid_rejection_reason}
use go_odtbank.Domain.Customer.{KycStatus, waiting, approved, rejected, ApplicationSummary}
use go_odtbank.Store.{MemoryStore, Outcome}
use go_odtbank.Store.Customers.{
  ApplicationDetail, list_applications, get_application, get_passport_image, approve_application,
  reject_application,
}

-- The status that a text names; the empty text is the waiting status.
abbrev status_named : String → Option KycStatus
status_named text =
    if str_eq text "" || str_eq text "waiting_for_approval"
    then some waiting
    else if str_eq text "approved"
    then some approved
    else if str_eq text "rejected"
    then some rejected
    else none

abbrev listed : Option KycStatus → MemoryStore → Result (List ApplicationSummary)
listed none m = err invalid_review_status
listed (some status) m = list_applications status m

unfoldable pub list : String → MemoryStore → Result (List ApplicationSummary)
list text m = listed (status_named text) m

unfoldable pub get : String → MemoryStore → Result ApplicationDetail
get id m = get_application id m

unfoldable pub passport : String → MemoryStore → Result (List ℕ × String)
passport id m = get_passport_image id m

-- `hex` is the text of the random bytes of the account's identifier, or the random source's error.
unfoldable pub approve : Result String → String → String → Time → MemoryStore → Outcome (Unit {0})
approve (err e) id admin now m = (err e, m)
approve (ok hex) id admin now m = approve_application id admin (concat "acc_" hex) now m

unfoldable pub reject : String → String → String → Time → MemoryStore → Outcome (Unit {0})
reject id admin reason now m =
    let why = trim_space reason in
    if byte_length why == 0 || ltb 500 (byte_length why)
    then (err invalid_rejection_reason, m)
    else reject_application id admin why now m
