-- ===== src/Repository/Interleaved.antt =====
-- A read through the repository, with other calls of the store between its three own.
use go_odtbank.Base.{
  ℕ, ◌+◌, ◌≤◌, String, ◌≡◌, ◌⊎◌, inl, inr, refl, sym, ap, subst, ◌∙◌, List, [], ◌∷◌, ◌++◌,
  append-nil, append_assoc, Option, none, some, lookup, lookup-insert_self, lookup-insert_ne,
  stream, length, length-append, String-cases, Bool-cases, Option-cases, arith, ltb, ◌==◌, ◌||◌,
}
use go_odtbank.Domain.Event.{Event, version}
use go_odtbank.Domain.Account.{Account, AccountSnapshot, replay_account, replay_account_from}
use go_odtbank.Domain.Account.Snapshots.{
  NumberedFrom, Captures, replay-snapshot, replay-covered, NumberedFrom-append_left,
}
use go_odtbank.Domain.Error.{ok}
use go_odtbank.Store.{MemoryStore}
use go_odtbank.Store.Events.{load, load_snapshot, save_snapshot}
use go_odtbank.Store.Events.Saves.{save_cases, save_stale, saves_streams}
use go_odtbank.Store.Streams.{StoreInv, Keeps, Keeps-refl, Extends-refl}
use go_odtbank.Repository.{
  Read, waiting, resuming, saving, returned, after_load, after_snapshot, after_save, snapshot,
  last_event, snapshot_of, maybe_snapshot,
}
use go_odtbank.Repository.Reads.{Answers, last-version, snapshot_of-Captures, save-StoreInv}

-- The events `es` are the first of the stream.
abbrev pub IsPrefix : String → List Event → MemoryStore → Type 0
IsPrefix id es m = (post : List Event) × (stream id m.streams ≡ es ++ post)

-- The account that a read is about to save and return: of the events it loaded; or of more of the
-- stream, from a snapshot that holds more, and then the store keeps one that is not older.
abbrev IsAnswer : String → Event → List Event → Account → MemoryStore → Type 0
IsAnswer id e es a m =
    (IsPrefix id (e ∷ es) m × (a ≡ replay_account id (e ∷ es)))
    ⊎ ((more : List Event) × (newest : AccountSnapshot) × IsPrefix id (e ∷ es ++ more) m
        × (a ≡ replay_account id (e ∷ es ++ more))
        × (lookup id m.snapshots ≡ some newest)
        × (version (last_event e es) ≤ newest.as_of_sequence))

-- What is true of a read in flight. One that has returned has answered for the events that it
-- loaded, or for those and more of the stream.
abbrev pub IsTrue : Read → MemoryStore → Type 0
IsTrue waiting m = Unit
IsTrue (resuming threshold id e es) m = IsPrefix id (e ∷ es) m
IsTrue (saving threshold id e es a) m = IsAnswer id e es a m
IsTrue (returned id es res) m =
    (more : List Event) × IsPrefix id (es ++ more) m × Answers id (es ++ more) res

IsPrefix-grown :
    (id : String) (es : List Event) (m m' : MemoryStore)
    → Keeps m m'
    → IsPrefix id es m
    → IsPrefix id es m'
IsPrefix-grown id es m m' k (post, split) =
    let (xs, grown) = k.grown id in
    (post ++ xs, grown ∙ ap (λ (s : List Event). s ++ xs) split ∙ append_assoc es post xs)

-- Other calls of the store leave it true.
pub IsTrue-grown : (r : Read) (m m' : MemoryStore) → Keeps m m' → IsTrue r m → IsTrue r m'
IsTrue-grown waiting m m' k h = tt
IsTrue-grown (resuming threshold id e es) m m' k h = IsPrefix-grown id (e ∷ es) m m' k h
IsTrue-grown (saving threshold id e es a) m m' k (inl (p, same)) =
    inl (IsPrefix-grown id (e ∷ es) m m' k p, same)
IsTrue-grown (saving threshold id e es a) m m' k (inr (more, newest, p, same, found, newer)) =
    let (later, found', le) = k.newer id newest found in
    inr (more, later, IsPrefix-grown id (e ∷ es ++ more) m m' k p, same, found', omega arith)
IsTrue-grown (returned id es res) m m' k (more, p, answer) =
    (more, IsPrefix-grown id (es ++ more) m m' k p, answer)

pub load-IsTrue :
    (threshold : ℕ) (id : String) (m : MemoryStore) → IsTrue (after_load threshold id (load id m)) m
unfolding load
load-IsTrue threshold id m = cases (stream id m.streams) refl
  where
    cases :
        (es : List Event) → stream id m.streams ≡ es → IsTrue (after_load threshold id (ok es)) m
    cases [] e = ([], (stream id m.streams, refl), inl (refl, refl))
    cases (x ∷ xs) e = ([], e ∙ sym (append-nil (x ∷ xs)))

-- Of two prefixes of one list, one is a prefix of the other.
prefixes :
    (xs ys qs bs : List Event)
    → xs ++ ys ≡ qs ++ bs
    → ((more : List Event) × (qs ≡ xs ++ more)) ⊎ ((more : List Event) × (xs ≡ qs ++ more))
prefixes [] ys qs bs e = inl (qs, refl)
prefixes (x ∷ xs) ys [] bs e = inr (x ∷ xs, refl)
prefixes (x ∷ xs) ys (q ∷ qs) bs e =
    let tail : xs ++ ys ≡ qs ++ bs = cc e in
    let head : x ≡ q = cc e in
    elim (prefixes xs ys qs bs tail) [
      | inl (more, h) ↦ inl (more, rw head (ap (λ (l : List Event). q ∷ l) h))
      | inr (more, h) ↦ inr (more, rw head (ap (λ (l : List Event). q ∷ l) h))
    ]

-- The account of what was loaded, resumed from a stored snapshot.
resumed-IsAnswer :
    (id : String) (e : Event) (es : List Event) (snap : AccountSnapshot) (m : MemoryStore)
    → StoreInv m
    → IsPrefix id (e ∷ es) m
    → lookup id m.snapshots ≡ some snap
    → IsAnswer id e es (replay_account_from id (some snap) (e ∷ es)) m
resumed-IsAnswer id e es snap m inv (rest, split) found =
    let (pre, post, split', c) = inv.snapshots_match id snap found in
    let whole = subst (NumberedFrom 0) split (inv.numbered id) in
    let first = NumberedFrom-append_left 0 (e ∷ es) rest whole in
    let held =
      NumberedFrom-append_left 0 pre post (subst (NumberedFrom 0) split' (inv.numbered id)) in
    elim (prefixes (e ∷ es) rest pre post (sym split ∙ split')) [
      | inl (more, h) ↦
          let held' = subst (NumberedFrom 0) h held in
          let c' = subst (Captures id snap) h c in
          let last : 0 + length es ≡ version (last_event e es) = last-version 0 e es first in
          inr (
            more,
            snap,
            (post, split' ∙ ap (λ (l : List Event). l ++ post) h),
            replay-covered id snap (e ∷ es) more held' c',
            found,
            omega (arith, length-append (e ∷ es) more, c'.covers, last),
          )
      | inr (more, h) ↦ inl (
        (rest, split),
        rw h (replay-snapshot id snap pre more (subst (NumberedFrom 0) h first) c),
      )
    ]

snapshot_lem :
    (id : String) (o : Option AccountSnapshot) (m : MemoryStore)
    → lookup id m.snapshots ≡ o
    → snapshot id m ≡ o
unfolding snapshot load_snapshot
snapshot_lem id none m e = rw (e, snapshot, load_snapshot) refl
snapshot_lem id (some snap) m e = rw (e, snapshot, load_snapshot) refl

-- `LoadSnapshot` gives a true account, whatever happened since `Load`.
pub snapshot-IsTrue :
    (r : Read) (m : MemoryStore) → StoreInv m → IsTrue r m → IsTrue (after_snapshot r m) m
unfolding replay_account
snapshot-IsTrue waiting m inv h = tt
snapshot-IsTrue (resuming threshold id e es) m inv h = elim (Option-cases (lookup id m.snapshots)) [
  | inl none_found ↦ with_snapshot none (snapshot_lem id none m none_found) (inl (h, refl))
  | inr (snap, found) ↦
      with_snapshot (some snap) (snapshot_lem id (some snap) m found)
        (resumed-IsAnswer id e es snap m inv h found)
]
  where
    with_snapshot :
        (o : Option AccountSnapshot)
        → snapshot id m ≡ o
        → IsAnswer id e es (replay_account_from id o (e ∷ es)) m
        → IsAnswer id e es (replay_account_from id (snapshot id m) (e ∷ es)) m
    with_snapshot o same answer = rw same answer
snapshot-IsTrue (saving threshold id e es a) m inv h = h
snapshot-IsTrue (returned id es res) m inv h = h

-- A snapshot that captures a prefix of its stream may be saved at any time.
save-Keeps :
    (snap : AccountSnapshot) (m : MemoryStore) (pre post : List Event)
    → StoreInv m
    → stream snap.aggregate_id m.streams ≡ pre ++ post
    → Captures snap.aggregate_id snap pre
    → Keeps m (save_snapshot snap m).1
save-Keeps snap m pre post inv split c = record {
  inv = (save-StoreInv snap m pre post inv split c).1;
  grown = rw (saves_streams snap m) (Extends-refl m.streams);
  newer = elim (save_cases snap m) [
    | inr (_, _, _, kept) ↦ rw kept (Keeps-refl m inv).newer
    | inl (written, later) ↦ rw written λ id old found. elim (String-cases id snap.aggregate_id) [
      | inl same ↦ (
        snap,
        rw same (lookup-insert_self snap.aggregate_id snap m.snapshots),
        later old (rw (sym same) found),
      )
      | inr other ↦
          (old, lookup-insert_ne id snap.aggregate_id snap m.snapshots other ∙ found, omega arith)
    ]
  ];
}

-- What a read saves is a true snapshot, or too old to be stored.
answer-Keeps :
    (id : String) (e : Event) (es : List Event) (a : Account) (m : MemoryStore)
    → StoreInv m
    → IsAnswer id e es a m
    → Keeps m (save_snapshot (snapshot_of id a (last_event e es)) m).1
answer-Keeps id e es a m inv (inl ((post, split), same)) =
    let whole = subst (NumberedFrom 0) split (inv.numbered id) in
    rw same (
      save-Keeps (snapshot_of id (replay_account id (e ∷ es)) (last_event e es)) m (e ∷ es) post inv
        split (snapshot_of-Captures id e es (NumberedFrom-append_left 0 (e ∷ es) post whole)))
answer-Keeps id e es a m inv (inr (more, newest, p, same, found, stale)) =
    rw (save_stale (snapshot_of id a (last_event e es)) newest m found stale) (Keeps-refl m inv)

answer-Answers :
    (id : String) (e : Event) (es : List Event) (a : Account) (m : MemoryStore)
    → IsAnswer id e es a m
    → IsTrue (returned id (e ∷ es) (ok a)) m
answer-Answers id e es a m (inl ((post, split), same)) =
    let whole = append-nil (e ∷ es) in
    (
      [],
      (post, split ∙ ap (λ (l : List Event). l ++ post) (sym whole)),
      inr ((λ k. cc k), ap ok (same ∙ ap (replay_account id) (sym whole))),
    )
answer-Answers id e es a m (inr (more, newest, p, same, found, stale)) =
    (more, p, inr ((λ k. cc k), ap ok same))

-- The end of a read keeps the store, and its answer is true.
pub save-IsTrue :
    (r : Read) (m : MemoryStore)
    → StoreInv m
    → IsTrue r m
    → let (r', m') = after_save r m in Keeps m m' × IsTrue r' m'
unfolding maybe_snapshot
save-IsTrue waiting m inv h = (Keeps-refl m inv, tt)
save-IsTrue (resuming threshold id e es) m inv h = (Keeps-refl m inv, h)
save-IsTrue (returned id es res) m inv h = (Keeps-refl m inv, h)
save-IsTrue (saving threshold id e es a) m inv h =
    let answer = answer-Answers id e es a m h in
    elim (Bool-cases (threshold == 0 || ltb (length (e ∷ es)) threshold)) [
      | inl no_need ↦ rw no_need (Keeps-refl m inv, answer)
      | inr long ↦
          let k = answer-Keeps id e es a m inv h in
          rw long (k, IsTrue-grown (returned id (e ∷ es) (ok a)) m _ k answer)
    ]
