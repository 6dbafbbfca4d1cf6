-- ===== src/Service/Transfer.antt =====
-- internal/service/transfer_service.go: accepting a transfer, and the worker that carries it out.
-- `time.Now()` is read several times in a call: `clock k` is what the k-th reading returns.
pub mod Rounds
pub mod Runs
pub mod Failures
use Prim.Native.String.{◌++◌ as concat}
use go_odtbank.Base.{
  ℕ, zero, suc, ◌+◌, ◌-◌, ◌*◌, ◌^◌, String, Bool, true, false, not, ◌&&◌, ◌||◌, ℤ, pos, max_int64,
  sub64, byte_length, ltb_ℤ, ltb, leb, ◌==◌, List, [], ◌∷◌, ◌++◌, str_eq, trim_space, if◌then◌else◌,
}
use go_odtbank.Domain.Event.{Money, Time}
use go_odtbank.Domain.Account.{Account, TransferCompletedEvent, empty_account}
use go_odtbank.Domain.Error.{
  Error, error_text, Result, ok, err, invalid_transfer_amount, idempotency_key_required,
  out_of_service, forbidden, account_not_found, insufficient_funds,
}
use go_odtbank.Domain.Transfer.{
  TransferStatus, pending, completed, failed, SagaStep, created, funds_reserved,
  compliance_approved, ledger_posted, reservation_captured, step_eq, TransferCommand,
  TransferRecord, TransferSagaUpdate,
}
use go_odtbank.Store.{MemoryStore, Outcome}
use go_odtbank.Store.Transfers.{
  create_transfer, find_transfer, list_due_transfers, update_transfer_saga, reserve_transfer_funds,
  record_compliance_decision, post_transfer_ledger, capture_transfer_reservation,
  release_transfer_reservation,
}

pub record TransferReceipt : Type 0 where
  pub transfer_id : String
  pub status : TransferStatus
  pub initial_source_account : Account
  pub final_source_account : Account
  pub transfer_amount : Money
  pub fee_amount : Money
  pub current_step : SagaStep

abbrev account_view : String → Money → Account
account_view id balance = record (empty_account id) { balance = balance }

unfoldable pub receipt_from_transfer : TransferRecord → TransferReceipt
receipt_from_transfer r = record {
  transfer_id = r.id;
  status = r.status;
  initial_source_account = account_view r.source_account_id r.initial_source_balance;
  final_source_account = account_view r.source_account_id r.final_source_balance;
  transfer_amount = r.amount;
  fee_amount = r.fee;
  current_step = r.current_step;
}

-- What the service is built from: the policies, and the hexadecimal text of the random bytes of
-- the next identifier, or the random source's error.
pub record Setup : Type 0 where
  pub calculate_fee : Money → Money
  pub is_service_available : Time → Bool
  pub random_hex : Result String

abbrev pub new_record : TransferCommand → String → Money → String → Time → TransferRecord
new_record c key fee hex now = record {
  id = concat "trf_" hex;
  source_account_id = c.source_account_id;
  destination_account_id = c.destination_account_id;
  idempotency_key = key;
  amount = c.amount;
  fee = fee;
  status = pending;
  failure_code = "";
  initial_source_balance = pos 0;
  final_source_balance = pos 0;
  created_at = now;
  updated_at = now;
  current_step = created;
  compliance_status = "";
  attempt_count = 0;
  next_attempt_at = now;
  last_error = "";
}

abbrev receipt_of : Outcome (TransferRecord × Bool) → Outcome TransferReceipt
receipt_of (ok (r, fresh), m) = (ok (receipt_from_transfer r), m)
receipt_of (err e, m) = (err e, m)

abbrev bad_key : String → Bool
bad_key key = str_eq key "" || ltb 128 (byte_length key)

-- `fee < 0`, or `amount + fee` does not fit an int64.
abbrev bad_fee : Money → Money → Bool
bad_fee amount fee = ltb_ℤ fee (pos 0) || ltb_ℤ (sub64 max_int64 fee) amount

unfoldable pub transfer :
    Setup → (ℕ → Time) → TransferCommand → MemoryStore → Outcome TransferReceipt
unfolding receipt_from_transfer
transfer setup clock c m =
    let key = trim_space c.idempotency_key in
    let fee = setup.calculate_fee c.amount in
    if ltb_ℤ c.amount (pos 100) || str_eq c.source_account_id c.destination_account_id
    then (err invalid_transfer_amount, m)
    else if bad_key key
    then (err idempotency_key_required, m)
    else if not (setup.is_service_available (clock 0))
    then (err out_of_service, m)
    else elim setup.random_hex [
      | err e ↦ (err e, m)
      | ok hex ↦
          if bad_fee c.amount fee
          then (err invalid_transfer_amount, m)
          else receipt_of (create_transfer (new_record c key fee hex (clock 1)) m)
    ]

abbrev only_source : String → Result TransferRecord → Result TransferRecord
only_source source (err e) = err e
only_source source (ok r) =
    if not (str_eq source "") && not (str_eq r.source_account_id source)
    then err forbidden
    else ok r

unfoldable pub find : String → String → MemoryStore → Result TransferRecord
find id source m = only_source source (find_transfer id m)

-- The update with only these fields given.
abbrev pub update_to : SagaStep → SagaStep → TransferStatus → Time → TransferSagaUpdate
update_to expected current status next = record {
  expected_step = expected;
  current_step = current;
  status = status;
  failure_code = "";
  compliance_status = "";
  last_error = "";
  attempt_count = 0;
  next_attempt_at = next;
  initial_source_balance = pos 0;
  final_source_balance = pos 0;
}

abbrev forget {ℓ} : {A : Type ℓ} → Result A → Result (Unit {0})
forget (ok a) = ok tt
forget (err e) = err e

unfoldable pub advance :
    TransferRecord → TransferSagaUpdate → Time → MemoryStore → Outcome (Unit {0})
advance r u at m = let (res, m') = update_transfer_saga r.id u at m in (forget res, m')

abbrev second : ℕ
second = 1_000_000_000

-- `time.Second << min(attempt-1, 4)`, and never above 30 seconds behind the ledger.
unfoldable pub retry_delay : ℕ → Bool → ℕ
retry_delay attempt after_ledger =
    let shift = if leb (attempt - 1) 4 then attempt - 1 else 4 in
    let delay = second * 2 ^ shift in
    if after_ledger && ltb (30 * second) delay then 30 * second else delay

unfoldable pub retry : TransferRecord → Error → Bool → (ℕ → Time) → MemoryStore → Outcome (Unit {0})
unfolding retry_delay
retry r step_err after_ledger clock m =
    let attempt = r.attempt_count + 1 in
    let unheld = step_eq r.current_step created in
    let released = if unheld then m else (release_transfer_reservation r (clock 1) m).1 in
    let next = if unheld then 1 else 2 in
    let exhausted = record (update_to r.current_step r.current_step failed (clock next)) {
      failure_code = "retry_exhausted";
      last_error = error_text step_err;
      attempt_count = attempt;
    } in
    let again =
      record (update_to r.current_step r.current_step pending
        (clock 1 + retry_delay attempt after_ledger)) {
          last_error = error_text step_err;
          attempt_count = attempt;
        } in
    if not after_ledger && leb 5 attempt
    then advance r exhausted (clock (next + 1)) released
    else advance r again (clock 2) m

abbrev pub is_permanent : Error → Bool
is_permanent account_not_found = true
is_permanent (insufficient_funds a x) = true
is_permanent _ = false

abbrev pub permanent_code : Error → String
permanent_code (insufficient_funds a x) = "insufficient_funds"
permanent_code _ = "account_not_found"

unfoldable pub handle_step_error :
    TransferRecord → Error → Bool → (ℕ → Time) → MemoryStore → Outcome (Unit {0})
handle_step_error r step_err reserved clock m =
    let released = if reserved then (release_transfer_reservation r (clock 1) m).1 else m in
    let next = if reserved then 2 else 1 in
    let permanent = record (update_to r.current_step r.current_step failed (clock next)) {
      failure_code = permanent_code step_err;
      last_error = error_text step_err;
    } in
    if is_permanent step_err
    then advance r permanent (clock (next + 1)) released
    else retry r step_err false clock m

-- The cases of `Process`, one for each step. `now` is the first reading of the clock.
unfoldable pub process_created : TransferRecord → (ℕ → Time) → MemoryStore → Outcome (Unit {0})
process_created r clock m =
    let (res, m') = reserve_transfer_funds r (clock 0) m in
    elim res [
      | err e ↦ handle_step_error r e false clock m'
      | ok balance ↦
          advance r
            (record (update_to r.current_step funds_reserved pending (clock 0)) {
              initial_source_balance = balance;
            })
            (clock 1) m'
    ]

abbrev decision_of : Bool → String
decision_of true = "approved"
decision_of false = "rejected"

-- The compliance decision is recorded; the transfer goes on or its reservation is released.
unfoldable pub process_decision :
    Bool → TransferRecord → (ℕ → Time) → MemoryStore → Outcome (Unit {0})
process_decision approved r clock m =
    let (recorded, m') = record_compliance_decision r.id (decision_of approved) (clock 0) m in
    let (released, m'') = release_transfer_reservation r (clock 0) m' in
    elim recorded [
      | err e ↦ handle_step_error r e true clock m'
      | ok _ ↦ elim approved [
        | true ↦
            advance r
              (record (update_to r.current_step compliance_approved pending (clock 0)) {
                compliance_status = "approved";
              })
              (clock 1) m'
        | false ↦ elim released [
          | err e ↦ handle_step_error r e true clock m''
          | ok _ ↦
              advance r
                (record (update_to r.current_step r.current_step failed (clock 0)) {
                  failure_code = "compliance_rejected";
                  compliance_status = "rejected";
                })
                (clock 1) m''
        ]
      ]
    ]

unfoldable pub process_reserved :
    (TransferRecord → Result Bool) → TransferRecord → (ℕ → Time) → MemoryStore → Outcome (Unit {0})
unfolding process_decision
process_reserved check r clock m = elim (check r) [
  | err e ↦ handle_step_error r e true clock m
  | ok approved ↦ process_decision approved r clock m
]

unfoldable pub process_approved : TransferRecord → (ℕ → Time) → MemoryStore → Outcome (Unit {0})
process_approved r clock m =
    let (res, m') = post_transfer_ledger r (clock 0) m in
    elim res [
      | err e ↦ handle_step_error r e true clock m'
      | ok final ↦
          advance r
            (record (update_to r.current_step ledger_posted pending (clock 0)) {
              final_source_balance = final;
            })
            (clock 1) m'
    ]

unfoldable pub process_posted : TransferRecord → (ℕ → Time) → MemoryStore → Outcome (Unit {0})
process_posted r clock m =
    let (res, m') = capture_transfer_reservation r (clock 0) m in
    elim res [
      | err e ↦ retry r e true clock m'
      | ok _ ↦
          advance r (update_to r.current_step reservation_captured pending (clock 0)) (clock 1) m'
    ]

-- What `Process` returns, the store, and the events handed to the bus.
abbrev pub Processed : Type 0
Processed = Result (Unit {0}) × MemoryStore × List TransferCompletedEvent

abbrev silent : Outcome (Unit {0}) → Processed
silent (res, m) = (res, m, [])

unfoldable pub process_captured : TransferRecord → (ℕ → Time) → MemoryStore → Processed
process_captured r clock m =
    let (res, m') =
      update_transfer_saga r.id (update_to r.current_step r.current_step completed (clock 0))
        (clock 0) m in
    elim res [
      | err e ↦ (err e, m', [])
      | ok true ↦ (
        ok tt,
        m',
        record {
          timestamp = clock 0;
          transfer_id = r.id;
          amount = r.amount;
          source_account_id = r.source_account_id;
          destination_account_id = r.destination_account_id;
          fee = r.fee;
        }
            ∷ [],
      )
      | ok false ↦ (ok tt, m', [])
    ]

pub process_step :
    SagaStep
    → (TransferRecord → Result Bool)
    → TransferRecord
    → (ℕ → Time)
    → MemoryStore
    → Processed
process_step created check r clock m = silent (process_created r clock m)
process_step funds_reserved check r clock m = silent (process_reserved check r clock m)
process_step compliance_approved check r clock m = silent (process_approved r clock m)
process_step ledger_posted check r clock m = silent (process_posted r clock m)
process_step reservation_captured check r clock m = process_captured r clock m

-- `Process`, with the checker and with an event bus.
unfoldable pub process :
    (TransferRecord → Result Bool) → TransferRecord → (ℕ → Time) → MemoryStore → Processed
unfolding process_step
process check r clock m = process_step r.current_step check r clock m

-- `approveAllCompliance`
unfoldable pub approve_all : TransferRecord → Result Bool
approve_all r = ok true

-- The loop of `ProcessDue` over the due transfers: `clocks k` are the readings while the k-th is
-- processed, and `cancelled k` says whether the context is done before it. The errors of
-- `Process` are dropped.
unfoldable pub process_items :
    (TransferRecord → Result Bool)
    → (ℕ → ℕ → Time)
    → (ℕ → Bool)
    → ℕ
    → List TransferRecord
    → MemoryStore
    → MemoryStore × List TransferCompletedEvent
process_items check clocks cancelled k [] m = (m, [])
process_items check clocks cancelled k (r ∷ rs) m =
    let (_, m', now) = process check r (clocks k) m in
    let (m'', later) = process_items check clocks cancelled (suc k) rs m' in
    if cancelled k then (m, []) else (m'', now ++ later)

abbrev listed : Result (List TransferRecord) → List TransferRecord
listed (ok rs) = rs
listed (err e) = []

unfoldable pub process_due :
    (TransferRecord → Result Bool)
    → Time
    → (ℕ → ℕ → Time)
    → (ℕ → Bool)
    → MemoryStore
    → MemoryStore × List TransferCompletedEvent
unfolding process_items
process_due check now clocks cancelled m =
    process_items check clocks cancelled 0 (listed (list_due_transfers now 100 m)) m
