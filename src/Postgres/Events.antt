-- ===== src/Postgres/Events.antt =====
-- internal/eventstore/postgres_store.go: the statements on `events` and `account_snapshots`, and the
-- methods of `Store` (internal/eventstore/store.go) that run them. A call that passes its error on
-- with more text wraps it by `wrapped`.
pub mod Rows
pub mod Reads
pub mod Appends
use Prim.Native.String.{◌++◌ as concat}
use go_odtbank.Base.{
  ℕ, String, Bool, true, false, List, [], ◌∷◌, Option, none, some, Dict, lookup, insert, stream,
  ltb, ◌==◌, sort_by, if◌then◌else◌,
}
use go_odtbank.Domain.Event.{Event, aggregate_id, event_type, occurred_at, version}
use go_odtbank.Domain.Account.{AccountSnapshot}
use go_odtbank.Domain.Error.{
  Error, Result, ok, err, other, unique_violation, error_text, concurrency_conflict, no_snapshot,
}
use go_odtbank.Postgres.Json.{marshal_event, decode_event, Payload}
use go_odtbank.Postgres.{
  Database, EventRow, Db, Statement, exec, pure, raise, lift, wrapped, ◌>>=◌, ◌>>◌,
}

-- A row by its place in the sequence, unless another row has the place.
unfoldable pub insert_row : EventRow → List EventRow → Option (List EventRow)
insert_row r [] = some (r ∷ [])
insert_row r (x ∷ xs) =
    let rest = insert_row r xs in
    if ltb r.sequence x.sequence
    then some (r ∷ x ∷ xs)
    else if r.sequence == x.sequence
    then none
    else elim rest [ none ↦ none | some ys ↦ some (x ∷ ys) ]

-- `INSERT INTO events`
unfoldable pub insert_event : String → EventRow → Statement (Unit {0})
insert_event id r d = elim (insert_row r (stream id d.events)) [
  | none ↦ (err (unique_violation "events_pkey"), d)
  | some rows ↦ (ok tt, record d { events = insert id rows d.events })
]

-- `INSERT INTO events ... ON CONFLICT (aggregate_id, sequence) DO NOTHING`: whether a row went in.
unfoldable pub insert_event_if_free : String → EventRow → Statement Bool
insert_event_if_free id r d = elim (insert_row r (stream id d.events)) [
  | none ↦ (ok false, d)
  | some rows ↦ (ok true, record d { events = insert id rows d.events })
]

-- `SELECT event_type, payload FROM events ... ORDER BY sequence`
abbrev pub select_events : String → Statement (List EventRow)
select_events id d = (ok (stream id d.events), d)

-- The loop over the rows, up to the first that does not decode.
unfoldable pub decode_rows : String → List EventRow → Result (List Event)
decode_rows id [] = ok []
decode_rows id (r ∷ rs) =
    let rest = decode_rows id rs in
    elim (decode_event id r.event_type r.payload) [
      | err e ↦ err e
      | ok ev ↦ elim rest [ err e ↦ err e | ok es ↦ ok (ev ∷ es) ]
    ]

unfoldable pub load_events_tx : String → Db (List Event)
load_events_tx id = do rows ← exec (select_events id); lift (decode_rows id rows)

abbrev pub row_of : Event → ℕ → Payload → EventRow
row_of e sequence payload = record {
  sequence = sequence;
  event_type = event_type e;
  payload = payload;
  occurred_at = occurred_at e;
}

unfoldable pub insert_event_tx : Event → Db (Unit {0})
insert_event_tx e = do
  payload ← lift (marshal_event e)
  exec (insert_event (aggregate_id e) (row_of e (version e) payload))

unfoldable pub append : Event → ℕ → Db (Unit {0})
append e expected = do
  payload ← wrapped "eventstore: marshal event: " (lift (marshal_event e))
  free ←
      wrapped "eventstore: insert event: "
        (exec (insert_event_if_free (aggregate_id e) (row_of e expected payload)))
  if free then pure tt else raise concurrency_conflict

unfoldable pub load : String → Db (List Event)
load id = do
  rows ← wrapped "eventstore: query events: " (exec (select_events id))
  lift (decode_rows id rows)

abbrev is_newer : Option AccountSnapshot → AccountSnapshot → Bool
is_newer none snap = true
is_newer (some old) snap = ltb old.as_of_sequence snap.as_of_sequence

-- `INSERT INTO account_snapshots ... ON CONFLICT (aggregate_id) DO UPDATE ... WHERE`
unfoldable pub upsert_snapshot : AccountSnapshot → Statement (Unit {0})
upsert_snapshot snap d = (
  ok tt,
  if is_newer (lookup snap.aggregate_id d.account_snapshots) snap
      then record d { account_snapshots = insert snap.aggregate_id snap d.account_snapshots }
      else d,
)

unfoldable pub save_snapshot : AccountSnapshot → Db (Unit {0})
save_snapshot snap = wrapped "eventstore: save snapshot: " (exec (upsert_snapshot snap))

abbrev select_snapshot : String → Statement (Option AccountSnapshot)
select_snapshot id d = (ok (lookup id d.account_snapshots), d)

abbrev or_no_snapshot : String → Option AccountSnapshot → Result AccountSnapshot
or_no_snapshot id none = err no_snapshot
or_no_snapshot id (some row) = ok (record row { aggregate_id = id })

unfoldable pub load_snapshot : String → Db AccountSnapshot
load_snapshot id = do
  row ← wrapped "eventstore: load snapshot: " (exec (select_snapshot id))
  lift (or_no_snapshot id row)

keys : Dict (List EventRow) → List String
keys [] = []
keys ((id, []) ∷ d) = keys d
keys ((id, r ∷ rs) ∷ d) = id ∷ keys d

-- `SELECT DISTINCT aggregate_id ... ORDER BY aggregate_id`, in the order of the database's collation.
unfoldable pub list_aggregates : (String → String → Bool) → Db (List String)
unfolding keys
list_aggregates before =
    wrapped "eventstore: list aggregates: " (exec (λ d. (ok (sort_by before (keys d.events)), d)))
