-- ===== src/Store/Transfers.antt =====
-- internal/eventstore/memory_store.go: the methods of `domain.TransferSagaStore`, and
-- `WithdrawAvailable`.
pub mod Holds
pub mod Ledger
pub mod Sagas
pub mod Idempotency
pub mod Repeats
use go_odtbank.Base.{
  ℕ, ◌-◌, String, Bool, true, false, not, ◌&&◌, ◌||◌, ℤ, pos, add64, sub64, ltb_ℤ, eqb_ℤ, ltb, leb,
  List, [], ◌∷◌, ◌++◌, Option, none, some, Dict, lookup, insert, stream, length, is_empty, sort_by,
  str_eq, if◌then◌else◌,
}
use go_odtbank.Domain.Event.{
  Event, Money, Time, Posting, Hold, money_credited, money_debited, funds_reserved,
  reservation_captured, reservation_released,
}
use go_odtbank.Domain.Account.{Account, replay_account}
use go_odtbank.Domain.Error.{
  Result, ok, err, Error, idempotency_conflict, transfer_not_found, account_not_found,
  insufficient_funds,
}
use go_odtbank.Domain.Transfer.{
  TransferRecord, TransferSagaUpdate, is_pending, step_eq, completed, failed,
}
use go_odtbank.Store.{MemoryStore, HoldState, reserved, captured, released, Outcome, account_of}

-- The loop of `CreateTransfer` over the transfers, up to the first with the same source and key.
unfoldable pub find_existing : String → String → Dict TransferRecord → Option TransferRecord
find_existing source key [] = none
find_existing source key ((id, t) ∷ d) =
    if str_eq t.source_account_id source && str_eq t.idempotency_key key
    then some t
    else find_existing source key d

abbrev pub same_details : TransferRecord → TransferRecord → Bool
same_details t r =
    eqb_ℤ t.amount r.amount && str_eq t.destination_account_id r.destination_account_id

-- The Boolean says whether the transfer is new.
unfoldable pub create_transfer : TransferRecord → MemoryStore → Outcome (TransferRecord × Bool)
create_transfer r m = elim (find_existing r.source_account_id r.idempotency_key m.transfers) [
  | some t ↦ if same_details t r then (ok (t, false), m) else (err idempotency_conflict, m)
  | none ↦ (ok (r, true), record m { transfers = insert r.id r m.transfers })
]

abbrev is_due : Time → TransferRecord → Bool
is_due now r = is_pending r.status && not (ltb now r.next_attempt_at)

-- The loop stops when the output holds `limit` entries; the argument counts what it still takes.
due_entries : Time → ℕ → Dict TransferRecord → List TransferRecord
due_entries now room [] = []
due_entries now room ((id, r) ∷ d) = elim (is_due now r) [
  | true ↦ r ∷ elim (leb room 1) [ true ↦ [] | false ↦ due_entries now (room - 1) d ]
  | false ↦ due_entries now room d
]

abbrev created_before : TransferRecord → TransferRecord → Bool
created_before a b = ltb a.created_at b.created_at

unfoldable pub list_due_transfers : Time → ℕ → MemoryStore → Result (List TransferRecord)
unfolding due_entries
list_due_transfers now limit m = ok (sort_by created_before (due_entries now limit m.transfers))

abbrev keep_text : String → String → String
keep_text new old = if str_eq new "" then old else new

abbrev keep_money : Money → Money → Money
keep_money new old = if eqb_ℤ new (pos 0) then old else new

unfoldable pub updated_transfer : TransferRecord → TransferSagaUpdate → Time → TransferRecord
updated_transfer r u at = record r {
  current_step = u.current_step;
  status = u.status;
  failure_code = u.failure_code;
  compliance_status = keep_text u.compliance_status r.compliance_status;
  last_error = u.last_error;
  attempt_count = u.attempt_count;
  next_attempt_at = u.next_attempt_at;
  updated_at = at;
  initial_source_balance = keep_money u.initial_source_balance r.initial_source_balance;
  final_source_balance = keep_money u.final_source_balance r.final_source_balance;
}

-- The Boolean says whether the transfer was still pending at the expected step.
unfoldable pub update_transfer_saga :
    String → TransferSagaUpdate → Time → MemoryStore → Outcome Bool
update_transfer_saga id u at m = elim (lookup id m.transfers) [
  | none ↦ (err transfer_not_found, m)
  | some r ↦
      if is_pending r.status && step_eq r.current_step u.expected_step
      then (ok true, record m { transfers = insert id (updated_transfer r u at) m.transfers })
      else (ok false, m)
]

abbrev pub hold_event : TransferRecord → String → Money → Time → String → ℕ → Hold
hold_event r account amount at name seq = record {
  aggregate = account;
  event_type = name;
  seq = seq;
  occurred = at;
  id = account;
  amount = amount;
  transfer_id = r.id;
}

unfoldable pub reserve_transfer_funds : TransferRecord → Time → MemoryStore → Outcome Money
reserve_transfer_funds r at m = elim (lookup r.id m.reservations) [
  | some h ↦ (ok ((account_of r.source_account_id m).balance), m)
  | none ↦
      let src = stream r.source_account_id m.streams in
      let dst = stream r.destination_account_id m.streams in
      let a = replay_account r.source_account_id src in
      let amount = add64 r.amount r.fee in
      if is_empty src || is_empty dst
      then (err account_not_found, m)
      else if ltb_ℤ a.available_balance amount
      then (err (insufficient_funds a amount), m)
      else (
        ok a.balance,
        record m {
          reservations =
              insert r.id
                (record { account_id = r.source_account_id; amount = amount; state = reserved })
                m.reservations;
          streams =
              insert r.source_account_id
                (src
                  ++ funds_reserved
                      (hold_event r r.source_account_id amount at "FundsReserved" (length src))
                    ∷ [])
                m.streams;
        },
      )
]

abbrev conflicts : Option String → String → Bool
conflicts none decision = false
conflicts (some old) decision = not (str_eq old decision)

unfoldable pub record_compliance_decision :
    String → String → Time → MemoryStore → Outcome (Unit {0})
record_compliance_decision id decision at m =
    if conflicts (lookup id m.compliance_decisions) decision
    then (err idempotency_conflict, m)
    else (ok tt, record m { compliance_decisions = insert id decision m.compliance_decisions })

-- The literal of a posting of a transfer: on `account`, against `counterparty`.
abbrev pub transfer_posting :
    TransferRecord → String → String → Money → String → String → Time → ℕ → Posting
transfer_posting r account counterparty amount purpose name at seq = record {
  aggregate = account;
  event_type = name;
  seq = seq;
  occurred = at;
  id = account;
  amount = amount;
  transfer_id = r.id;
  purpose = purpose;
  counterparty_account_id = counterparty;
  adjustment_id = "";
  adjustment_reason = "";
  case_reference = "";
  original_reference = "";
}

-- The source's stream with the fee, if there is one.
abbrev pub with_fee : TransferRecord → Time → List Event → List Event
with_fee r at src =
    if ltb_ℤ (pos 0) r.fee
    then src
      ++ money_debited (
          transfer_posting r r.source_account_id r.destination_account_id r.fee "fee" "MoneyDebited"
            at (length src))
        ∷ []
    else src

abbrev pub with_debit : TransferRecord → Time → List Event → List Event
with_debit r at src =
    src
    ++ money_debited (
        transfer_posting r r.source_account_id r.destination_account_id r.amount "transfer"
          "MoneyDebited" at (length src))
      ∷ []

abbrev pub with_credit : TransferRecord → Time → List Event → List Event
with_credit r at dst =
    dst
    ++ money_credited (
        transfer_posting r r.destination_account_id r.source_account_id r.amount "transfer"
          "MoneyCredited" at (length dst))
      ∷ []

-- `m.ledgerPostings[id]`: a missing flag reads as false.
abbrev pub flag : Option Bool → Bool
flag none = false
flag (some b) = b

unfoldable pub post_transfer_ledger : TransferRecord → Time → MemoryStore → Outcome Money
post_transfer_ledger r at m =
    let src = stream r.source_account_id m.streams in
    let dst = stream r.destination_account_id m.streams in
    let src' = with_debit r at (with_fee r at src) in
    let dst' = with_credit r at dst in
    if flag (lookup r.id m.ledger_postings)
    then (ok ((account_of r.source_account_id m).balance), m)
    else if is_empty src || is_empty dst
    then (err account_not_found, m)
    else (
      ok (replay_account r.source_account_id src').balance,
      record m {
        streams = insert r.destination_account_id dst' (insert r.source_account_id src' m.streams);
        ledger_postings = insert r.id true m.ledger_postings;
      },
    )

abbrev pub hold_state_eq : HoldState → HoldState → Bool
hold_state_eq reserved reserved = true
hold_state_eq captured captured = true
hold_state_eq released released = true
hold_state_eq _ _ = false

abbrev pub closing_event : HoldState → Hold → Event
closing_event captured h = reservation_captured h
closing_event _ h = reservation_released h

abbrev pub closing_name : HoldState → String
closing_name captured = "ReservationCaptured"
closing_name _ = "ReservationReleased"

unfoldable pub finish_reservation :
    TransferRecord → Time → HoldState → MemoryStore → Outcome (Unit {0})
finish_reservation r at state m = elim (lookup r.id m.reservations) [
  | none ↦ (ok tt, m)
  | some hold ↦
      let events = stream hold.account_id m.streams in
      let closing =
        closing_event state
          (hold_event r hold.account_id hold.amount at (closing_name state) (length events)) in
      if hold_state_eq hold.state state
      then (ok tt, m)
      else if not (hold_state_eq hold.state reserved)
      then (err idempotency_conflict, m)
      else (
        ok tt,
        record m {
          reservations = insert r.id (record hold { state = state }) m.reservations;
          streams = insert hold.account_id (events ++ closing ∷ []) m.streams;
        },
      )
]

unfoldable pub capture_transfer_reservation :
    TransferRecord → Time → MemoryStore → Outcome (Unit {0})
unfolding finish_reservation
capture_transfer_reservation r at m = finish_reservation r at captured m

unfoldable pub release_transfer_reservation :
    TransferRecord → Time → MemoryStore → Outcome (Unit {0})
unfolding finish_reservation
release_transfer_reservation r at m = finish_reservation r at released m

abbrev pub plain_posting : String → Money → Time → String → ℕ → Posting
plain_posting account amount at name seq = record {
  aggregate = account;
  event_type = name;
  seq = seq;
  occurred = at;
  id = account;
  amount = amount;
  transfer_id = "";
  purpose = "";
  counterparty_account_id = "";
  adjustment_id = "";
  adjustment_reason = "";
  case_reference = "";
  original_reference = "";
}

unfoldable pub withdraw_available :
    String → Money → Time → MemoryStore → Outcome (Account × Account)
withdraw_available id amount at m =
    let events = stream id m.streams in
    let initial = replay_account id events in
    let events' =
      events ++ money_debited (plain_posting id amount at "MoneyDebited" (length events)) ∷ [] in
    if is_empty events
    then (err account_not_found, m)
    else if ltb_ℤ initial.available_balance amount
    then (err (insufficient_funds initial amount), m)
    else (
      ok (initial, replay_account id events'),
      record m { streams = insert id events' m.streams },
    )

abbrev or_transfer_not_found : Option TransferRecord → Result TransferRecord
or_transfer_not_found none = err transfer_not_found
or_transfer_not_found (some r) = ok r

unfoldable pub find_transfer : String → MemoryStore → Result TransferRecord
find_transfer id m = or_transfer_not_found (lookup id m.transfers)
