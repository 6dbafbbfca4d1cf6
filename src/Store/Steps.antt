-- ===== src/Store/Steps.antt =====
-- The memory store and the reads in flight as one state, and every atomic step on it: a call of a
-- method, or one of the three calls that a FindByID of the repository makes. The mutex orders the
-- steps, so a run of the server is a sequence of them, whatever goroutines make them.
pub mod Growth
pub mod Postings
pub mod Reviews
pub mod Calls
use go_odtbank.Base.{
  arith, ℕ, String, ◌≡◌, ◌≢◌, ◌⊎◌, inl, inr, refl, List, [], ◌∷◌, lookup, stream, Bool, true, false,
  Bool-cases, ◌==◌, if◌then◌else◌, if_both,
}
use go_odtbank.Store.{MemoryStore, new_memory_store}
use go_odtbank.Store.Events.{load}
use go_odtbank.Store.Streams.{StoreInv, Keeps}
use go_odtbank.Repository.{Read, waiting, after_load, after_snapshot, after_save, find_by_id}
use go_odtbank.Repository.Reads.{Answers, find_by_id-replays}
use go_odtbank.Repository.Interleaved.{
  IsTrue, IsTrue-grown, load-IsTrue, snapshot-IsTrue, save-IsTrue,
}
use Calls.{Call, Call-Keeps}

-- The store, and the calls of FindByID by number.
pub record Server : Type 0 where
  pub store : MemoryStore
  pub reads : ℕ → Read

abbrev pub with_read : ℕ → Read → (ℕ → Read) → ℕ → Read
with_read k r reads j = if j == k then r else reads j

abbrev pub new_server : Server
new_server = record { store = new_memory_store; reads = λ k. waiting }

-- The call `k` loads the events of an account.
abbrev pub load_step : ℕ → ℕ → String → Server → Server
load_step k threshold id s = record s {
  reads = with_read k (after_load threshold id (load id s.store)) s.reads;
}

-- The call `k` loads the snapshot, and replays.
abbrev pub snapshot_step : ℕ → Server → Server
snapshot_step k s = record s { reads = with_read k (after_snapshot (s.reads k) s.store) s.reads }

-- The call `k` saves a snapshot, if it does, and returns.
abbrev pub save_step : ℕ → Server → Server
save_step k s =
    let (r, m) = after_save (s.reads k) s.store in
    record { store = m; reads = with_read k r s.reads }

pub data Step (s : Server) : Server → Type 0 where
  calls : {m : MemoryStore} → Call s.store m → Step s (record s { store = m })
  loads : (k threshold : ℕ) (id : String) → Step s (load_step k threshold id s)
  resumes : (k : ℕ) → Step s (snapshot_step k s)
  saves : (k : ℕ) → Step s (save_step k s)

-- The states that a run from `s` can reach.
pub data Reach (s : Server) : Server → Type 0 where
  here : Reach s s
  next : {u v : Server} → Reach s u → Step u v → Reach s v

abbrev pub AllTrue : Server → Type 0
AllTrue s = (k : ℕ) → IsTrue (s.reads k) s.store

with_read-IsTrue :
    (k : ℕ) (r : Read) (reads : ℕ → Read) (m : MemoryStore)
    → IsTrue r m
    → ((j : ℕ) → IsTrue (reads j) m)
    → (j : ℕ) → IsTrue (with_read k r reads j) m
with_read-IsTrue k r reads m h all j = if_both (λ (x : Read). IsTrue x m) (j == k) h (all j)

Step-AllTrue :
    {s s' : Server} → Step s s' → StoreInv s.store × AllTrue s → StoreInv s'.store × AllTrue s'
Step-AllTrue {s} (calls {m} c) (inv, all) =
    let k = Call-Keeps c inv in (k.inv, λ j. IsTrue-grown (s.reads j) s.store m k (all j))
Step-AllTrue {s} (loads k threshold id) (inv, all) =
    (inv, with_read-IsTrue k _ s.reads s.store (load-IsTrue threshold id s.store) all)
Step-AllTrue {s} (resumes k) (inv, all) = (
  inv,
  with_read-IsTrue k _ s.reads s.store (snapshot-IsTrue (s.reads k) s.store inv (all k)) all,
)
Step-AllTrue {s} (saves k) (inv, all) =
    let (kept, done) = save-IsTrue (s.reads k) s.store inv (all k) in
    (
      kept.inv,
      with_read-IsTrue k _ s.reads _ done (λ j. IsTrue-grown (s.reads j) s.store _ kept (all j)),
    )

new-StoreInv : StoreInv new_memory_store
unfolding stream lookup
new-StoreInv = record { numbered = λ id. tt; snapshots_match = λ id snap e. absurd (cc e) }

Reach-AllTrue : {s : Server} → Reach new_server s → StoreInv s.store × AllTrue s
Reach-AllTrue here = (new-StoreInv, λ k. tt)
Reach-AllTrue (next r st) = Step-AllTrue st (Reach-AllTrue r)

-- From a new store, in any order: calls of the methods that change it, with events appended at the
-- version they carry and accounts opened under fresh identifiers; and any number of FindByID, each in
-- its three calls Load, LoadSnapshot and SaveSnapshot with any other steps in between. Then every
-- stream is numbered by position, and every stored snapshot is the sum of a prefix of its stream.
-- Each FindByID that has returned has answered with the replay of the events that it loaded or of
-- those and more events of the stream, or that there is no account if there were none. And one more,
-- with nothing in between, answers with the replay of the whole stream, or that there is no account.
pub Reach-StoreInv :
    {s : Server} (threshold : ℕ) (id : String)
    → Reach new_server s
    → StoreInv s.store
      × AllTrue s
      × Answers id (stream id s.store.streams) (find_by_id threshold id s.store).0
Reach-StoreInv {s} threshold id r =
    let (inv, all) = Reach-AllTrue r in (inv, all, (find_by_id-replays threshold id s.store inv).0)
