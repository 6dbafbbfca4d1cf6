-- ===== src/Repository.antt =====
-- internal/repository/memory_repo.go: an account read from its snapshot and its events. The store is
-- the memory store; a threshold of zero stands for every one that is not positive.
pub mod Reads
pub mod Interleaved
use go_odtbank.Base.{
  ℕ, String, Bool, true, false, ◌||◌, ltb, ◌==◌, List, [], ◌∷◌, Option, none, some, length,
  if◌then◌else◌,
}
use go_odtbank.Domain.Event.{Event, version, occurred_at}
use go_odtbank.Domain.Account.{Account, AccountSnapshot, replay_account_from}
use go_odtbank.Domain.Error.{Result, ok, err, account_not_found}
use go_odtbank.Store.{MemoryStore, Outcome}
use go_odtbank.Store.Events.{load, load_snapshot, save_snapshot}

abbrev snapshot_or_none : Result AccountSnapshot → Option AccountSnapshot
snapshot_or_none (ok snap) = some snap
snapshot_or_none (err e) = none

unfoldable pub snapshot : String → MemoryStore → Option AccountSnapshot
snapshot id m = snapshot_or_none (load_snapshot id m)

-- `events[len(events)-1]` of the stream `e ∷ es`
unfoldable pub last_event : Event → List Event → Event
last_event e [] = e
last_event e (x ∷ es) = last_event x es

abbrev pub snapshot_of : String → Account → Event → AccountSnapshot
snapshot_of id a last = record {
  aggregate_id = id;
  balance = a.balance;
  reserved_balance = a.reserved_balance;
  available_balance = a.available_balance;
  as_of_sequence = version last;
  occurred_at = occurred_at last;
}

-- A fresh snapshot of the stream `e ∷ es`, once it is long enough.
unfoldable pub maybe_snapshot :
    ℕ → String → Event → List Event → Account → MemoryStore → MemoryStore
maybe_snapshot threshold id e es a m =
    if threshold == 0 || ltb (length (e ∷ es)) threshold
    then m
    else (save_snapshot (snapshot_of id a (last_event e es)) m).1

unfoldable pub find_loaded : ℕ → String → Result (List Event) → MemoryStore → Outcome Account
find_loaded threshold id (err e) m = (err e, m)
find_loaded threshold id (ok []) m = (err account_not_found, m)
find_loaded threshold id (ok (e ∷ es)) m =
    let a = replay_account_from id (snapshot id m) (e ∷ es) in
    (ok a, maybe_snapshot threshold id e es a m)

unfoldable pub find_by_id : ℕ → String → MemoryStore → Outcome Account
unfolding find_loaded
find_by_id threshold id m = find_loaded threshold id (load id m) m

-- A call of FindByID in flight, which is three calls of the store: what it has read so far. The
-- events of `resuming` and `saving` are `first ∷ rest`, and `returned` names what was loaded.
pub data Read : Type 0 where
  waiting : Read
  resuming : (threshold : ℕ) (id : String) (first : Event) (rest : List Event) → Read
  saving : (threshold : ℕ) (id : String) (first : Event) (rest : List Event) (a : Account) → Read
  returned : (id : String) (loaded : List Event) (res : Result Account) → Read

-- After `Load`.
abbrev pub after_load : ℕ → String → Result (List Event) → Read
after_load threshold id (err e) = returned id [] (err e)
after_load threshold id (ok []) = returned id [] (err account_not_found)
after_load threshold id (ok (e ∷ es)) = resuming threshold id e es

-- After `LoadSnapshot`, with the replay.
abbrev pub after_snapshot : Read → MemoryStore → Read
after_snapshot waiting m = waiting
after_snapshot (resuming threshold id e es) m =
    saving threshold id e es (replay_account_from id (snapshot id m) (e ∷ es))
after_snapshot (saving threshold id e es a) m = saving threshold id e es a
after_snapshot (returned id es res) m = returned id es res

-- After `SaveSnapshot`, or without it for a short stream.
abbrev pub after_save : Read → MemoryStore → Read × MemoryStore
after_save waiting m = (waiting, m)
after_save (resuming threshold id e es) m = (resuming threshold id e es, m)
after_save (saving threshold id e es a) m =
    (returned id (e ∷ es) (ok a), maybe_snapshot threshold id e es a m)
after_save (returned id es res) m = (returned id es res, m)
