-- ===== src/Service/Adjustment.antt =====
-- internal/service/adjustment_service.go: the requests of administrators.
pub mod Makers
use Prim.Native.String.{◌++◌ as concat}
use go_odtbank.Base.{
  String, Bool, true, false, not, ◌&&◌, ◌||◌, pos, ltb_ℤ, ltb, List, Option, none, some, str_eq,
  trim_space, byte_length, if◌then◌else◌,
}
use go_odtbank.Domain.Event.{Time}
use go_odtbank.Domain.Error.{Result, ok, err, invalid_adjustment}
use go_odtbank.Domain.Adjustment.{
  AdjustmentRequest, AdjustmentStatus, waiting, approved, rejected, manual, reversal,
}
use go_odtbank.Store.{MemoryStore, Outcome}
use go_odtbank.Store.Adjustments

-- The request with its texts trimmed.
abbrev pub trimmed : AdjustmentRequest → AdjustmentRequest
trimmed r = record r {
  kind = trim_space r.kind;
  direction = trim_space r.direction;
  reason = trim_space r.reason;
  case_reference = trim_space r.case_reference;
}

abbrev no_sequence {ℓ} : {A : Type ℓ} → Option A → Bool
no_sequence none = true
no_sequence (some a) = false

-- The first test: the kind, and the lengths of the reason and of the case reference.
abbrev pub bad_texts : AdjustmentRequest → Bool
bad_texts r =
    (not (str_eq r.kind manual) && not (str_eq r.kind reversal))
    || ltb (byte_length r.reason) 10
    || ltb 500 (byte_length r.reason)
    || ltb (byte_length r.case_reference) 1
    || ltb 100 (byte_length r.case_reference)

abbrev pub bad_manual : AdjustmentRequest → Bool
bad_manual r =
    str_eq r.kind manual
    && (str_eq r.account_id ""
        || (not (str_eq r.direction "credit") && not (str_eq r.direction "debit"))
        || ltb_ℤ r.amount (pos 1))

abbrev pub bad_reversal : AdjustmentRequest → Bool
bad_reversal r =
    str_eq r.kind reversal
    && str_eq r.original_transfer_id ""
    && (str_eq r.original_account_id "" || no_sequence r.original_event_sequence)

-- What the service stamps on a request.
abbrev pub stamped : String → String → Time → AdjustmentRequest → AdjustmentRequest
stamped hex admin now r = record r {
  id = concat "adj_" hex;
  status = waiting;
  created_by = admin;
  created_at = now;
}

-- `hex` is the text of the random bytes, or the random source's error.
unfoldable pub create :
    Result String → AdjustmentRequest → String → Time → MemoryStore → Outcome AdjustmentRequest
create hex r admin now m =
    let t = trimmed r in
    if bad_texts t || bad_manual t || bad_reversal t
    then (err invalid_adjustment, m)
    else elim hex [
      | err e ↦ (err e, m)
      | ok h ↦ Adjustments.create_adjustment (stamped h admin now t) m
    ]

-- The status that a text names; the empty text is the waiting status.
abbrev status_named : String → Option AdjustmentStatus
status_named text =
    if str_eq text "" || str_eq text "waiting_for_approval"
    then some waiting
    else if str_eq text "approved"
    then some approved
    else if str_eq text "rejected"
    then some rejected
    else none

abbrev listed : Option AdjustmentStatus → MemoryStore → Result (List AdjustmentRequest)
listed none m = err invalid_adjustment
listed (some status) m = Adjustments.list_adjustments status m

unfoldable pub list : String → MemoryStore → Result (List AdjustmentRequest)
list text m = listed (status_named text) m

unfoldable pub get : String → MemoryStore → Result AdjustmentRequest
get id m = Adjustments.get_adjustment id m

unfoldable pub approve : String → String → Time → MemoryStore → Outcome (Unit {0})
approve id admin now m = Adjustments.approve_adjustment id admin now m

unfoldable pub reject : String → String → String → Time → MemoryStore → Outcome (Unit {0})
reject id admin reason now m =
    let why = trim_space reason in
    if ltb (byte_length why) 1 || ltb 500 (byte_length why)
    then (err invalid_adjustment, m)
    else Adjustments.reject_adjustment id admin why now m
