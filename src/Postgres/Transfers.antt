-- ===== src/Postgres/Transfers.antt =====
-- internal/eventstore/postgres_store.go: the statements on `transfers` and `compliance_decisions`,
-- and the methods of `domain.TransferSagaStore` that are one statement or two, each by itself.
use go_odtbank.Base.{
  ℕ, String, Bool, true, false, not, ◌&&◌, ◌||◌, pos, leb, ltb, ◌==◌, List, [], ◌∷◌, Option, none,
  some, Dict, lookup, insert, sort_by, str_eq, ◌-◌, if◌then◌else◌,
}
use go_odtbank.Domain.Event.{Time}
use go_odtbank.Domain.Error.{
  Error, Result, ok, err, other, unique_violation, idempotency_conflict, transfer_not_found,
}
use go_odtbank.Domain.Transfer.{TransferRecord, TransferSagaUpdate, is_pending, step_eq}
use go_odtbank.Store.Transfers.{find_existing, same_details, updated_transfer}
use go_odtbank.Postgres.{Db, Statement, exec, pure, raise, lift, ◌>>=◌}

abbrev pub is_some {ℓ} : {A : Type ℓ} → Option A → Bool
is_some none = false
is_some (some a) = true

-- `INSERT INTO transfers`: the id is new, and so is the pair of source and key.
unfoldable pub insert_transfer : TransferRecord → Statement (Unit {0})
insert_transfer r d =
    if is_some (lookup r.id d.transfers)
      || is_some (find_existing r.source_account_id r.idempotency_key d.transfers)
    then (err (unique_violation "transfers"), d)
    else (ok tt, record d { transfers = insert r.id r d.transfers })

-- `SELECT ... FROM transfers WHERE source_account_id=$1 AND idempotency_key=$2`
abbrev pub select_by_key : String → String → Statement (Option TransferRecord)
select_by_key source key d = (ok (find_existing source key d.transfers), d)

abbrev pub select_transfer : String → Statement (Option TransferRecord)
select_transfer id d = (ok (lookup id d.transfers), d)

-- `Scan` on a query of one row.
abbrev pub one_row : {A : Type 0} → Error → Option A → Result A
one_row e none = err e
one_row e (some a) = ok a

abbrev pub no_rows : Error
no_rows = other "no rows in result set"

unfoldable pub find_transfer_by_key : String → String → Db TransferRecord
find_transfer_by_key source key = do
  row ← exec (select_by_key source key)
  lift (one_row no_rows row)

unfoldable pub find_transfer : String → Db TransferRecord
find_transfer id = do row ← exec (select_transfer id); lift (one_row transfer_not_found row)

-- A call whose error of code 23505 is handled by `instead`.
abbrev pub unless_duplicate : {A : Type 0} → Db (Unit {0}) → Db A → Db A → Db A
unless_duplicate m next instead faults w =
    let (r, w') = m faults w in
    elim r [
      | ok _ ↦ next faults w'
      | err (unique_violation _) ↦ instead faults w'
      | err e ↦ (err e, w')
    ]

-- The columns that the statement of `CreateTransfer` does not name have their defaults.
abbrev pub created_row : TransferRecord → TransferRecord
created_row r = record r {
  failure_code = "";
  initial_source_balance = pos 0;
  final_source_balance = pos 0;
  updated_at = r.created_at;
  compliance_status = "";
  attempt_count = 0;
  last_error = "";
}

abbrev existing_transfer : TransferRecord → Db (TransferRecord × Bool)
existing_transfer r = do
  t ← find_transfer_by_key r.source_account_id r.idempotency_key
  if same_details t r then pure (t, false) else raise idempotency_conflict

unfoldable pub create_transfer : TransferRecord → Db (TransferRecord × Bool)
create_transfer r =
    unless_duplicate (exec (insert_transfer (created_row r))) (pure (r, true)) (existing_transfer r)

abbrev is_due : Time → TransferRecord → Bool
is_due now r = is_pending r.status && leb r.next_attempt_at now

due_rows : Time → Dict TransferRecord → List TransferRecord
due_rows now [] = []
due_rows now ((id, r) ∷ d) = let rest = due_rows now d in if is_due now r then r ∷ rest else rest

-- `ORDER BY next_attempt_at, created_at`
abbrev due_before : TransferRecord → TransferRecord → Bool
due_before a b =
    ltb a.next_attempt_at b.next_attempt_at
    || (a.next_attempt_at == b.next_attempt_at && ltb a.created_at b.created_at)

-- `LIMIT`
limited : ℕ → List TransferRecord → List TransferRecord
limited n [] = []
limited n (r ∷ rs) = let rest = limited (n - 1) rs in if n == 0 then [] else r ∷ rest

unfoldable pub list_due_transfers : Time → ℕ → Db (List TransferRecord)
unfolding due_rows limited
list_due_transfers now limit =
    exec (λ d. (ok (limited limit (sort_by due_before (due_rows now d.transfers))), d))

-- `UPDATE transfers SET ... WHERE id=$1 AND current_step=$2 AND status='pending'`: the rows affected.
unfoldable pub update_saga : String → TransferSagaUpdate → Time → Statement ℕ
update_saga id u at d = elim (lookup id d.transfers) [
  | none ↦ (ok 0, d)
  | some r ↦
      if step_eq r.current_step u.expected_step && is_pending r.status
      then (ok 1, record d { transfers = insert id (updated_transfer r u at) d.transfers })
      else (ok 0, d)
]

unfoldable pub update_transfer_saga : String → TransferSagaUpdate → Time → Db Bool
update_transfer_saga id u at = do affected ← exec (update_saga id u at); pure (affected == 1)

abbrev is_decision : String → Bool
is_decision s = str_eq s "approved" || str_eq s "rejected"

abbrev decision_allows : Option String → String → Bool
decision_allows none decision = true
decision_allows (some old) decision = str_eq old decision

-- `INSERT INTO compliance_decisions ... ON CONFLICT(transfer_id) DO UPDATE ... WHERE`: the rows
-- affected. The table checks the decision, and that the transfer exists.
unfoldable pub upsert_decision : String → String → Statement ℕ
upsert_decision id decision d =
    if not (is_decision decision)
    then (err (other "violates check constraint"), d)
    else if not (decision_allows (lookup id d.compliance_decisions) decision)
    then (ok 0, d)
    else if not (is_some (lookup id d.transfers))
    then (err (other "violates foreign key constraint"), d)
    else (ok 1, record d { compliance_decisions = insert id decision d.compliance_decisions })

unfoldable pub record_compliance_decision : String → String → Time → Db (Unit {0})
record_compliance_decision id decision at = do
  affected ← exec (upsert_decision id decision)
  if affected == 0 then raise idempotency_conflict else pure tt
