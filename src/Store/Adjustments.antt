-- ===== src/Store/Adjustments.antt =====
-- internal/eventstore/memory_store.go: the methods of `domain.AdjustmentStore`.
pub mod Reviewing
pub mod Reversing
use Prim.Native.String.{◌++◌ as concat}
use go_odtbank.Base.{
  ℕ, String, Bool, true, false, not, ◌&&◌, ◌||◌, ℤ, pos, negsuc, add64, ltb_ℤ, eqb_ℤ, ltb, List, [],
  ◌∷◌, ◌++◌, Option, none, some, Dict, lookup, insert, stream, length, get_elem?, is_empty, sort_by,
  str_eq, sprint_int, if◌then◌else◌,
}
use go_odtbank.Domain.Event.{
  Event, Money, Time, Posting, account_opened, money_credited, money_debited, funds_reserved,
  reservation_captured, reservation_released,
}
use go_odtbank.Domain.Account.{replay_account}
use go_odtbank.Domain.Error.{
  Result, ok, err, account_not_found, transfer_not_found, already_reversed, invalid_adjustment,
  adjustment_not_found, adjustment_reviewed, self_approval, insufficient_funds,
}
use go_odtbank.Domain.Transfer.{TransferRecord, is_completed}
use go_odtbank.Domain.Adjustment.{
  AdjustmentRequest, AdjustmentStatus, waiting, approved, rejected, is_waiting, is_rejected, manual,
  reversal,
}
use go_odtbank.Store.{MemoryStore, Outcome}

-- The loop of `CreateAdjustment` for a transfer: some request for it is not rejected.
unfoldable pub transfer_reversed : String → Dict AdjustmentRequest → Bool
transfer_reversed id [] = false
transfer_reversed id ((k, a) ∷ d) =
    (str_eq a.original_transfer_id id && not (is_rejected a.status)) || transfer_reversed id d

abbrev same_sequence : Option ℤ → Option ℤ → Bool
same_sequence none none = false
same_sequence none (some j) = false
same_sequence (some i) none = false
same_sequence (some i) (some j) = eqb_ℤ i j

-- The loop for an event of an account.
unfoldable pub event_reversed : String → Option ℤ → Dict AdjustmentRequest → Bool
event_reversed account seq [] = false
event_reversed account seq ((k, a) ∷ d) =
    (str_eq a.original_account_id account
      && same_sequence a.original_event_sequence seq
      && not (is_rejected a.status))
    || event_reversed account seq d

-- The event that the request names, if the number is given and within the stream.
abbrev pub event_at : Option ℤ → List Event → Option Event
event_at none events = none
event_at (some (pos k)) events = get_elem? events k
event_at (some (negsuc k)) events = none

-- Only a plain deposit or withdrawal is reversed by itself.
abbrev is_plain : Posting → Bool
is_plain e = str_eq e.transfer_id "" && not (str_eq e.purpose "fee") && str_eq e.adjustment_id ""

abbrev pub reverse_event : AdjustmentRequest → Event → Result AdjustmentRequest
reverse_event r (money_credited e) =
    if is_plain e
    then ok
        (record r { account_id = r.original_account_id; amount = e.amount; direction = "debit" })
    else err invalid_adjustment
reverse_event r (money_debited e) =
    if is_plain e
    then ok
        (record r { account_id = r.original_account_id; amount = e.amount; direction = "credit" })
    else err invalid_adjustment
reverse_event r _ = err invalid_adjustment

abbrev pub reverse_transfer :
    AdjustmentRequest → Option TransferRecord → Dict AdjustmentRequest → Result AdjustmentRequest
reverse_transfer r none d = err transfer_not_found
reverse_transfer r (some t) d =
    if not (is_completed t.status)
    then err transfer_not_found
    else if transfer_reversed r.original_transfer_id d
    then err already_reversed
    else ok (record r {
      account_id = t.source_account_id;
      direction = "reversal";
      amount = t.amount;
      fee = t.fee;
      counterparty_account_id = t.destination_account_id;
    })

abbrev reverse_stored :
    AdjustmentRequest → Option Event → Dict AdjustmentRequest → Result AdjustmentRequest
reverse_stored r none d = err invalid_adjustment
reverse_stored r (some e) d =
    if event_reversed r.original_account_id r.original_event_sequence d
    then err already_reversed
    else reverse_event r e

-- The request as it is stored, or why it is not.
unfoldable pub prepare_adjustment : AdjustmentRequest → MemoryStore → Result AdjustmentRequest
prepare_adjustment r m =
    if str_eq r.kind manual
    then (if is_empty (stream r.account_id m.streams) then err account_not_found else ok r)
    else if not (str_eq r.original_transfer_id "")
    then reverse_transfer r (lookup r.original_transfer_id m.transfers) m.adjustments
    else reverse_stored r
        (event_at r.original_event_sequence (stream r.original_account_id m.streams)) m.adjustments

abbrev pub store_adjustment :
    String → Result AdjustmentRequest → MemoryStore → Outcome AdjustmentRequest
store_adjustment id (err e) m = (err e, m)
store_adjustment id (ok r) m = (ok r, record m { adjustments = insert id r m.adjustments })

unfoldable pub create_adjustment : AdjustmentRequest → MemoryStore → Outcome AdjustmentRequest
unfolding prepare_adjustment
create_adjustment r m = store_adjustment r.id (prepare_adjustment r m) m

abbrev pub status_eq : AdjustmentStatus → AdjustmentStatus → Bool
status_eq waiting waiting = true
status_eq approved approved = true
status_eq rejected rejected = true
status_eq _ _ = false

with_status : AdjustmentStatus → Dict AdjustmentRequest → List AdjustmentRequest
with_status status [] = []
with_status status ((k, a) ∷ d) =
    let rest = with_status status d in if status_eq a.status status then a ∷ rest else rest

abbrev created_before : AdjustmentRequest → AdjustmentRequest → Bool
created_before a b = ltb a.created_at b.created_at

unfoldable pub list_adjustments : AdjustmentStatus → MemoryStore → Result (List AdjustmentRequest)
unfolding with_status
list_adjustments status m = ok (sort_by created_before (with_status status m.adjustments))

abbrev or_adjustment_not_found : Option AdjustmentRequest → Result AdjustmentRequest
or_adjustment_not_found none = err adjustment_not_found
or_adjustment_not_found (some r) = ok r

unfoldable pub get_adjustment : String → MemoryStore → Result AdjustmentRequest
get_adjustment id m = or_adjustment_not_found (lookup id m.adjustments)

-- `ref`: the transfer, or the account and the event's number.
abbrev sequence_reference : AdjustmentRequest → Option ℤ → String
sequence_reference r none = ""
sequence_reference r (some n) = concat r.original_account_id (concat ":" (sprint_int n))

abbrev reference : AdjustmentRequest → String
reference r =
    if str_eq r.original_transfer_id ""
    then sequence_reference r r.original_event_sequence
    else r.original_transfer_id

abbrev pub adjustment_posting :
    AdjustmentRequest → String → Money → String → String → Time → ℕ → Posting
adjustment_posting r account amount counterparty name at seq = record {
  aggregate = account;
  event_type = name;
  seq = seq;
  occurred = at;
  id = account;
  amount = amount;
  transfer_id = "";
  purpose = if str_eq r.kind reversal then "reversal" else "adjustment";
  counterparty_account_id = counterparty;
  adjustment_id = r.id;
  adjustment_reason = r.reason;
  case_reference = r.case_reference;
  original_reference = reference r;
}

unfoldable pub append_credit :
    AdjustmentRequest → Time → String → Money → String → Dict (List Event) → Dict (List Event)
append_credit r at account amount counterparty d =
    let events = stream account d in
    insert account
      (events
        ++ money_credited
            (adjustment_posting r account amount counterparty "MoneyCredited" at (length events))
          ∷ [])
      d

unfoldable pub append_debit :
    AdjustmentRequest
    → Time
    → String
    → Money
    → String
    → Dict (List Event)
    → Result (Dict (List Event))
append_debit r at account amount counterparty d =
    let events = stream account d in
    let a = replay_account account events in
    if ltb_ℤ a.available_balance amount
    then err (insufficient_funds a amount)
    else ok (
        insert account
          (events
            ++ money_debited
                (adjustment_posting r account amount counterparty "MoneyDebited" at (length events))
              ∷ [])
          d)

abbrev pub then_credit :
    AdjustmentRequest → Time → Result (Dict (List Event)) → Result (Dict (List Event))
then_credit r at (err e) = err e
then_credit r at (ok d) =
    ok (append_credit r at r.account_id (add64 r.amount r.fee) r.counterparty_account_id d)

-- The postings of an approved request.
unfoldable pub apply_adjustment :
    AdjustmentRequest → Time → Dict (List Event) → Result (Dict (List Event))
apply_adjustment r at d =
    if not (str_eq r.original_transfer_id "")
    then then_credit r at (append_debit r at r.counterparty_account_id r.amount r.account_id d)
    else if str_eq r.direction "credit"
    then ok (append_credit r at r.account_id r.amount "" d)
    else append_debit r at r.account_id r.amount "" d

abbrev pub settle_adjustment :
    String
    → AdjustmentRequest
    → String
    → Time
    → Result (Dict (List Event))
    → MemoryStore
    → Outcome (Unit {0})
settle_adjustment id r admin at (err e) m = (err e, m)
settle_adjustment id r admin at (ok d) m = (
  ok tt,
  record m {
    streams = d;
    adjustments =
        insert id (record r { status = approved; reviewed_by = admin; reviewed_at = some at })
          m.adjustments;
  },
)

unfoldable pub approve_adjustment : String → String → Time → MemoryStore → Outcome (Unit {0})
approve_adjustment id admin at m = elim (lookup id m.adjustments) [
  | none ↦ (err adjustment_not_found, m)
  | some r ↦
      if not (is_waiting r.status)
      then (err adjustment_reviewed, m)
      else if str_eq r.created_by admin
      then (err self_approval, m)
      else settle_adjustment id r admin at (apply_adjustment r at m.streams) m
]

unfoldable pub reject_adjustment :
    String → String → String → Time → MemoryStore → Outcome (Unit {0})
reject_adjustment id admin reason at m = elim (lookup id m.adjustments) [
  | none ↦ (err adjustment_not_found, m)
  | some r ↦
      if not (is_waiting r.status)
      then (err adjustment_reviewed, m)
      else if str_eq r.created_by admin
      then (err self_approval, m)
      else (
        ok tt,
        record m {
          adjustments =
              insert id
                (record r {
                  status = rejected;
                  reviewed_by = admin;
                  rejection_reason = reason;
                  reviewed_at = some at;
                })
                m.adjustments;
        },
      )
]
