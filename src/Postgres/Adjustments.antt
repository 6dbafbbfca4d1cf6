-- ===== src/Postgres/Adjustments.antt =====
-- internal/eventstore/postgres_store.go: the methods of `domain.AdjustmentStore`, with the statements
-- on `adjustment_requests`. `CreateAdjustment` is a sequence of calls without a transaction.
pub mod DualControl
use go_odtbank.Base.{
  ℕ, String, Bool, true, false, not, ◌&&◌, ◌||◌, ℤ, pos, add64, ltb_ℤ, ltb, List, [], ◌∷◌, Option,
  none, some, Dict, lookup, insert, length, is_empty, sort_by, str_eq, eqb_ℤ, if◌then◌else◌,
}
use go_odtbank.Domain.Event.{Event, Money, Time, money_credited, money_debited}
use go_odtbank.Domain.Account.{replay_account}
use go_odtbank.Domain.Error.{
  Error, Result, ok, err, other, unique_violation, account_not_found, transfer_not_found,
  already_reversed, invalid_adjustment, adjustment_not_found, adjustment_reviewed, self_approval,
  insufficient_funds,
}
use go_odtbank.Domain.Transfer.{TransferRecord, is_completed}
use go_odtbank.Domain.Adjustment.{
  AdjustmentRequest, AdjustmentStatus, waiting, approved, rejected, is_waiting, is_rejected, manual,
  reversal,
}
use go_odtbank.Store.Adjustments.{
  transfer_reversed, event_reversed, event_at, reverse_event, status_eq, adjustment_posting,
}
use go_odtbank.Postgres.{
  Database, Wire, Faults, Db, Statement, Ending, commits, exec, transaction, guard, pure, raise,
  lift, ◌>>=◌, ◌>>◌,
}
use go_odtbank.Postgres.Events.{load, load_events_tx, insert_event_tx}
use go_odtbank.Postgres.Transfers.{is_some, one_row, find_transfer}
use go_odtbank.Postgres.Holds.{lock_account_tx, min_string, max_string}

-- A transfer that has been completed; whatever else there is, an error included, counts as none.
abbrev completed_only : Result TransferRecord × Wire → Result TransferRecord × Wire
completed_only (ok t, w) = (if is_completed t.status then ok t else err transfer_not_found, w)
completed_only (err e, w) = (err transfer_not_found, w)

abbrev find_completed : String → Db TransferRecord
find_completed id faults w = completed_only (find_transfer id faults w)

-- `SELECT EXISTS(...)` for the requests that are not rejected
abbrev select_transfer_reversed : String → Statement Bool
select_transfer_reversed id d = (ok (transfer_reversed id d.adjustment_requests), d)

abbrev select_event_reversed : String → Option ℤ → Statement Bool
select_event_reversed account seq d = (ok (event_reversed account seq d.adjustment_requests), d)

-- What the request is to reverse, or the account of a manual one.
abbrev prepare_manual : AdjustmentRequest → Db AdjustmentRequest
prepare_manual r = do events ← load r.account_id; guard (is_empty events) account_not_found; pure r

abbrev prepare_transfer : AdjustmentRequest → Db AdjustmentRequest
prepare_transfer r = do
  t ← find_completed r.original_transfer_id
  exists ← exec (select_transfer_reversed r.original_transfer_id)
  guard exists already_reversed
  pure (record r {
    account_id = t.source_account_id;
    counterparty_account_id = t.destination_account_id;
    amount = t.amount;
    fee = t.fee;
    direction = "reversal";
  })

abbrev prepare_event : AdjustmentRequest → Db AdjustmentRequest
prepare_event r = do
  events ← load r.original_account_id
  e ← lift (one_row invalid_adjustment (event_at r.original_event_sequence events))
  exists ← exec (select_event_reversed r.original_account_id r.original_event_sequence)
  guard exists already_reversed
  lift (reverse_event r e)

unfoldable pub prepare_adjustment : AdjustmentRequest → Db AdjustmentRequest
prepare_adjustment r =
    if str_eq r.kind manual
    then prepare_manual r
    else if not (str_eq r.original_transfer_id "")
    then prepare_transfer r
    else prepare_event r

abbrev is_kind : String → Bool
is_kind s = str_eq s manual || str_eq s reversal

-- `INSERT INTO adjustment_requests`, with its check, its keys and the author's reference.
unfoldable pub insert_adjustment : AdjustmentRequest → Statement (Unit {0})
insert_adjustment r d =
    let active = not (is_rejected r.status) in
    if not (is_kind r.kind)
    then (err (other "violates check constraint"), d)
    else if is_some (lookup r.id d.adjustment_requests)
    then (err (unique_violation "adjustment_requests_pkey"), d)
    else if active
        && not (str_eq r.original_transfer_id "")
        && transfer_reversed r.original_transfer_id d.adjustment_requests
    then (err (unique_violation "adjustment_requests_active_transfer_reversal_idx"), d)
    else if active
        && not (str_eq r.original_account_id "")
        && is_some r.original_event_sequence
        && event_reversed r.original_account_id r.original_event_sequence d.adjustment_requests
    then (err (unique_violation "adjustment_requests_active_event_reversal_idx"), d)
    else if not (is_some (lookup r.created_by d.admins))
    then (err (other "violates foreign key constraint"), d)
    else (ok tt, record d { adjustment_requests = insert r.id r d.adjustment_requests })

abbrev is_active_index : String → Bool
is_active_index s =
    str_eq s "adjustment_requests_active_transfer_reversal_idx"
    || str_eq s "adjustment_requests_active_event_reversal_idx"

-- What `CreateAdjustment` returns for the error of its statement.
abbrev reversed_or : Result (Unit {0}) × Wire → Result (Unit {0}) × Wire
reversed_or (ok u, w) = (ok u, w)
reversed_or (err (unique_violation s), w) =
    (err (if is_active_index s then already_reversed else unique_violation s), w)
reversed_or (err e, w) = (err e, w)

abbrev store_adjustment : AdjustmentRequest → Db (Unit {0})
store_adjustment r faults w = reversed_or (exec (insert_adjustment r) faults w)

-- The columns of a review have their defaults in a new row.
abbrev new_row : AdjustmentRequest → AdjustmentRequest
new_row r = record r { reviewed_by = ""; rejection_reason = ""; reviewed_at = none }

unfoldable pub create_adjustment : AdjustmentRequest → Db AdjustmentRequest
create_adjustment r = do
  prepared ← prepare_adjustment r
  store_adjustment (new_row prepared)
  pure prepared

abbrev pub select_adjustment : String → Statement (Option AdjustmentRequest)
select_adjustment id d = (ok (lookup id d.adjustment_requests), d)

unfoldable pub get_adjustment : String → Db AdjustmentRequest
get_adjustment id = do row ← exec (select_adjustment id); lift (one_row adjustment_not_found row)

with_status : AdjustmentStatus → Dict AdjustmentRequest → List AdjustmentRequest
with_status status [] = []
with_status status ((k, a) ∷ d) =
    let rest = with_status status d in if status_eq a.status status then a ∷ rest else rest

abbrev created_before : AdjustmentRequest → AdjustmentRequest → Bool
created_before a b = ltb a.created_at b.created_at

unfoldable pub list_adjustments : AdjustmentStatus → Db (List AdjustmentRequest)
unfolding with_status
list_adjustments status =
    exec (λ d. (ok (sort_by created_before (with_status status d.adjustment_requests)), d))

-- The locks of one or two accounts, in their order.
abbrev lock_accounts : AdjustmentRequest → Db (Unit {0})
lock_accounts r =
    if str_eq r.counterparty_account_id ""
    then lock_account_tx r.account_id
    else lock_account_tx (min_string r.account_id r.counterparty_account_id)
      >> lock_account_tx (max_string r.account_id r.counterparty_account_id)

is_approved : AdjustmentStatus → Bool
is_approved waiting = false
is_approved approved = true
is_approved rejected = false

-- `SELECT EXISTS(...)` for other requests that are approved
approved_transfer : String → String → Dict AdjustmentRequest → Bool
unfolding is_approved
approved_transfer id transfer [] = false
approved_transfer id transfer ((k, a) ∷ d) =
    let rest = approved_transfer id transfer d in
    (not (str_eq a.id id) && str_eq a.original_transfer_id transfer && is_approved a.status) || rest

abbrev at_sequence : Option ℤ → ℤ → Bool
at_sequence none n = false
at_sequence (some k) n = eqb_ℤ k n

approved_event : String → String → ℤ → Dict AdjustmentRequest → Bool
unfolding is_approved
approved_event id account n [] = false
approved_event id account n ((k, a) ∷ d) =
    let rest = approved_event id account n d in
    (not (str_eq a.id id)
      && str_eq a.original_account_id account
      && at_sequence a.original_event_sequence n
      && is_approved a.status)
    || rest

-- A request without a number would be a nil pointer.
unfoldable pub select_approved : AdjustmentRequest → Statement Bool
unfolding approved_transfer approved_event
select_approved r d =
    if not (str_eq r.original_transfer_id "")
    then (ok (approved_transfer r.id r.original_transfer_id d.adjustment_requests), d)
    else elim r.original_event_sequence [
      | none ↦ (err (other "nil pointer dereference"), d)
      | some n ↦ (ok (approved_event r.id r.original_account_id n d.adjustment_requests), d)
    ]

abbrev check_reversal : AdjustmentRequest → Db (Unit {0})
check_reversal r =
    if str_eq r.kind reversal
    then exec (select_approved r) >>= (λ already. guard already already_reversed)
    else pure tt

unfoldable pub credit : AdjustmentRequest → Time → String → Money → String → Db (Unit {0})
credit r at account amount counterparty = do
  events ← load_events_tx account
  insert_event_tx (
      money_credited
        (adjustment_posting r account amount counterparty "MoneyCredited" at (length events)))

unfoldable pub debit : AdjustmentRequest → Time → String → Money → String → Db (Unit {0})
debit r at account amount counterparty = do
  events ← load_events_tx account
  let a = replay_account account events
  guard (ltb_ℤ a.available_balance amount) (insufficient_funds a amount)
  insert_event_tx (
      money_debited
        (adjustment_posting r account amount counterparty "MoneyDebited" at (length events)))

unfoldable pub post_adjustment : AdjustmentRequest → Time → Db (Unit {0})
post_adjustment r at =
    if not (str_eq r.original_transfer_id "")
    then debit r at r.counterparty_account_id r.amount r.account_id
      >> credit r at r.account_id (add64 r.amount r.fee) r.counterparty_account_id
    else if str_eq r.direction "credit"
    then credit r at r.account_id r.amount ""
    else debit r at r.account_id r.amount ""

-- `UPDATE adjustment_requests SET ... WHERE id=$1`; the reviewer is an administrator.
unfoldable pub update_adjustment :
    String → String → (AdjustmentRequest → AdjustmentRequest) → Statement (Unit {0})
update_adjustment id admin change d = elim (lookup id d.adjustment_requests) [
  | none ↦ (ok tt, d)
  | some r ↦
      if not (is_some (lookup admin d.admins))
      then (err (other "violates foreign key constraint"), d)
      else (ok tt, record d { adjustment_requests = insert id (change r) d.adjustment_requests })
]

-- The guards of a review, and then what it does.
abbrev pub reviewed :
    String → String → (AdjustmentRequest → Db (Ending (Unit {0}))) → Db (Ending (Unit {0}))
reviewed id admin next = do
  row ← exec (select_adjustment id)
  r ← lift (one_row adjustment_not_found row)
  guard (not (is_waiting r.status)) adjustment_reviewed
  guard (str_eq r.created_by admin) self_approval
  next r

abbrev pub approve_checked : String → String → Time → AdjustmentRequest → Db (Ending (Unit {0}))
approve_checked id admin at r = do
  lock_accounts r
  check_reversal r
  post_adjustment r at
  exec (
      update_adjustment id admin
        (λ a. record a { status = approved; reviewed_by = admin; reviewed_at = some at }))
  pure (commits tt)

unfoldable pub approve_body : String → String → Time → Db (Ending (Unit {0}))
approve_body id admin at = reviewed id admin (approve_checked id admin at)

unfoldable pub approve_adjustment : String → String → Time → Db (Unit {0})
approve_adjustment id admin at = transaction (approve_body id admin at)

abbrev pub reject_checked :
    String → String → String → Time → AdjustmentRequest → Db (Ending (Unit {0}))
reject_checked id admin reason at r = do
  exec (
      update_adjustment id admin (λ a. record a {
        status = rejected;
        reviewed_by = admin;
        rejection_reason = reason;
        reviewed_at = some at;
      }))
  pure (commits tt)

unfoldable pub reject_body : String → String → String → Time → Db (Ending (Unit {0}))
reject_body id admin reason at = reviewed id admin (reject_checked id admin reason at)

unfoldable pub reject_adjustment : String → String → String → Time → Db (Unit {0})
reject_adjustment id admin reason at = transaction (reject_body id admin reason at)
