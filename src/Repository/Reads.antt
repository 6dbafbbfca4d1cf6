-- ===== src/Repository/Reads.antt =====
-- A read through the repository, against a replay of the whole stream.
use go_odtbank.Base.{
  ℕ, suc, ◌+◌, String, ◌≡◌, ◌≢◌, ◌⊎◌, inl, inr, refl, sym, subst, ◌∙◌, List, [], ◌∷◌, ◌++◌,
  append-nil, some_inj, lookup, lookup-insert_self, lookup-insert_ne, stream, length, String-cases,
  Bool-cases, Option-cases, arith, ltb, ◌==◌, ◌||◌,
}
use go_odtbank.Domain.Event.{Event, version}
use go_odtbank.Domain.Account.{Account, AccountSnapshot, replay_account, replay_account_from}
use go_odtbank.Domain.Account.Snapshots.{NumberedFrom, Captures, replay-snapshot}
use go_odtbank.Domain.Error.{Result, ok, err, account_not_found}
use go_odtbank.Store.{MemoryStore}
use go_odtbank.Store.Events.{load, load_snapshot, save_snapshot}
use go_odtbank.Store.Events.Saves.{save_cases, saves_streams}
use go_odtbank.Store.Streams.{StoreInv, SnapshotsMatch}
use go_odtbank.Repository.{
  snapshot, last_event, snapshot_of, maybe_snapshot, find_loaded, find_by_id,
}

pub last-version :
    (n : ℕ) (e : Event) (es : List Event)
    → NumberedFrom n (e ∷ es)
    → n + length es ≡ version (last_event e es)
unfolding last_event
last-version n e [] h = omega arith
last-version n e (x ∷ es) h = omega (arith, last-version (suc n) x es h.1)

-- A snapshot of the whole stream captures it.
pub snapshot_of-Captures :
    (id : String) (e : Event) (es : List Event)
    → NumberedFrom 0 (e ∷ es)
    → Captures id (snapshot_of id (replay_account id (e ∷ es)) (last_event e es)) (e ∷ es)
snapshot_of-Captures id e es h = record {
  same_id = refl;
  same_balance = refl;
  same_reserved = refl;
  covers = omega (arith, last-version 0 e es h);
}

-- The snapshot of the store, if there is one, makes no difference.
read_is_replay :
    (id : String) (m : MemoryStore)
    → StoreInv m
    → replay_account_from id (snapshot id m) (stream id m.streams)
      ≡ replay_account id (stream id m.streams)
unfolding snapshot load_snapshot replay_account
read_is_replay id m inv = elim (Option-cases (lookup id m.snapshots)) [
  | inl e ↦ rw e refl
  | inr (snap, e) ↦
      let (pre, post, split, c) = inv.snapshots_match id snap e in
      rw e (
        rw split
          (replay-snapshot id snap pre post (subst (NumberedFrom 0) split (inv.numbered id)) c))
]

save-SnapshotsMatch :
    (snap : AccountSnapshot) (m : MemoryStore)
    → SnapshotsMatch m
    → (pre : List Event) (post : List Event) → stream snap.aggregate_id m.streams ≡ pre ++ post
    → Captures snap.aggregate_id snap pre
    → SnapshotsMatch (save_snapshot snap m).1
save-SnapshotsMatch snap m h pre post split c = elim (save_cases snap m) [
  | inr (_, _, _, kept) ↦ rw kept h
  | inl (written, _) ↦ rw written λ id old found. elim (String-cases id snap.aggregate_id) [
    | inr other ↦
        h id old (rw (lookup-insert_ne id snap.aggregate_id snap m.snapshots other) at found)
    | inl same ↦
        let e : snap ≡ old =
          some_inj
            (sym (lookup-insert_self snap.aggregate_id snap m.snapshots) ∙ (rw same at found)) in
        (pre, post, rw same split, subst (λ (x : AccountSnapshot). Captures id x pre) e (rw same c))
  ]
]

pub save-StoreInv :
    (snap : AccountSnapshot) (m : MemoryStore) (pre post : List Event)
    → StoreInv m
    → stream snap.aggregate_id m.streams ≡ pre ++ post
    → Captures snap.aggregate_id snap pre
    → ((save_snapshot snap m).1.streams ≡ m.streams) × StoreInv (save_snapshot snap m).1
save-StoreInv snap m pre post inv split c =
    let same = saves_streams snap m in
    (
      same,
      record {
        numbered = rw same inv.numbered;
        snapshots_match = save-SnapshotsMatch snap m inv.snapshots_match pre post split c;
      },
    )

maybe-StoreInv :
    (threshold : ℕ) (id : String) (e : Event) (es : List Event) (m : MemoryStore)
    → StoreInv m
    → stream id m.streams ≡ e ∷ es
    → let m' = maybe_snapshot threshold id e es (replay_account id (e ∷ es)) m in
      (m'.streams ≡ m.streams) × StoreInv m'
unfolding maybe_snapshot
maybe-StoreInv threshold id e es m inv whole =
    elim (Bool-cases (threshold == 0 || ltb (length (e ∷ es)) threshold)) [
      | inl no_need ↦ rw no_need (refl, inv)
      | inr long ↦ rw long (
          save-StoreInv (snapshot_of id (replay_account id (e ∷ es)) (last_event e es)) m (e ∷ es)
            [] inv (whole ∙ sym (append-nil (e ∷ es)))
            (snapshot_of-Captures id e es (subst (NumberedFrom 0) whole (inv.numbered id))))
    ]

-- What a read of the stream `es` answers.
abbrev pub Answers : String → List Event → Result Account → Type 0
Answers id es res =
    ((es ≡ []) × (res ≡ err account_not_found)) ⊎ ((es ≢ []) × (res ≡ ok (replay_account id es)))

find_loaded_lem :
    (threshold : ℕ) (id : String) (m : MemoryStore) (es : List Event)
    → StoreInv m
    → stream id m.streams ≡ es
    → let (res, m') = find_loaded threshold id (ok es) m in
      Answers id es res × (m'.streams ≡ m.streams) × StoreInv m'
unfolding find_loaded
find_loaded_lem threshold id m [] inv e = (inl (refl, refl), refl, inv)
find_loaded_lem threshold id m (x ∷ xs) inv e =
    let same : replay_account_from id (snapshot id m) (x ∷ xs) ≡ replay_account id (x ∷ xs) =
      subst (λ (es : List Event). replay_account_from id (snapshot id m) es ≡ replay_account id es)
        e (read_is_replay id m inv) in
    let (streams, inv') = maybe-StoreInv threshold id x xs m inv e in
    rw same (inr ((λ k. cc k), refl), streams, inv')

-- With streams numbered by position and every stored snapshot true to its stream: a read of an
-- account with no events finds no account, any other read returns exactly the replay of the whole
-- stream, whatever snapshot there is; the streams stay as they are, and with the snapshot that the
-- read may have saved the same invariant holds again.
pub find_by_id-replays :
    (threshold : ℕ) (id : String) (m : MemoryStore)
    → StoreInv m
    → let (res, m') = find_by_id threshold id m in
      Answers id (stream id m.streams) res × (m'.streams ≡ m.streams) × StoreInv m'
unfolding find_by_id load
find_by_id-replays threshold id m inv =
    find_loaded_lem threshold id m (stream id m.streams) inv refl
