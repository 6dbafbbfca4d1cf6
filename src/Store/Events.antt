-- ===== src/Store/Events.antt =====
-- internal/eventstore/memory_store.go: `Append`, `Load`, `ListAggregates`, `SaveSnapshot` and
-- `LoadSnapshot`, the contract of internal/eventstore/store.go.
pub mod Saves
pub mod Concurrency
use mathlib.Core.List.{map}
use text.Mathlib.Text.{is_lt}
use Prim.Native.String.{compare}
use go_odtbank.Base.{
  ℕ, String, Bool, List, [], ◌∷◌, ◌++◌, Option, none, some, Dict, lookup, insert, stream, length,
  sort_by, leb, ◌==◌, if◌then◌else◌,
}
use go_odtbank.Domain.Event.{Event, aggregate_id}
use go_odtbank.Domain.Account.{AccountSnapshot}
use go_odtbank.Domain.Error.{Result, ok, err, concurrency_conflict, no_snapshot}
use go_odtbank.Store.{MemoryStore, Outcome}

unfoldable pub append : Event → ℕ → MemoryStore → Outcome (Unit {0})
append event expected m =
    let id = aggregate_id event in
    let s = stream id m.streams in
    if length s == expected
    then (ok tt, record m { streams = insert id (s ++ event ∷ []) m.streams })
    else (err concurrency_conflict, m)

unfoldable pub load : String → MemoryStore → Result (List Event)
load id m = ok (stream id m.streams)

keys {ℓ} : {V : Type ℓ} → Dict V → List String
keys [] = []
keys ((k, v) ∷ d) = k ∷ keys d

string_before : String → String → Bool
string_before s t = is_lt (compare s t)

unfoldable pub list_aggregates : MemoryStore → Result (List String)
unfolding keys string_before
list_aggregates m = ok (sort_by string_before (keys m.streams))

abbrev is_stale : Option AccountSnapshot → AccountSnapshot → Bool
is_stale none snap = Bool.false
is_stale (some existing) snap = leb snap.as_of_sequence existing.as_of_sequence

unfoldable pub save_snapshot : AccountSnapshot → MemoryStore → Outcome (Unit {0})
save_snapshot snap m =
    if is_stale (lookup snap.aggregate_id m.snapshots) snap
    then (ok tt, m)
    else (ok tt, record m { snapshots = insert snap.aggregate_id snap m.snapshots })

abbrev or_no_snapshot : Option AccountSnapshot → Result AccountSnapshot
or_no_snapshot none = err no_snapshot
or_no_snapshot (some snap) = ok snap

unfoldable pub load_snapshot : String → MemoryStore → Result AccountSnapshot
load_snapshot id m = or_no_snapshot (lookup id m.snapshots)
