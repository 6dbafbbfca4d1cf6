-- ===== src/Store/Events/Saves.antt =====
-- What `SaveSnapshot` does to the stored snapshots.
use go_odtbank.Base.{
  ◌≤◌, ◌≡◌, ◌⊎◌, inl, inr, refl, sym, ◌∙◌, true, some, some_inj, lookup, insert, Option-cases,
  Bool-cases, leb, arith,
}
use go_odtbank.Domain.Account.{AccountSnapshot}
use go_odtbank.Store.{MemoryStore}
use go_odtbank.Store.Events.{save_snapshot}

-- The snapshot is stored, over none or one that is no more recent, or one at least as recent is kept.
pub save_cases :
    (snap : AccountSnapshot) (m : MemoryStore)
    → (((save_snapshot snap m).1
          ≡ record m { snapshots = insert snap.aggregate_id snap m.snapshots })
        × ((old : AccountSnapshot)
            → lookup snap.aggregate_id m.snapshots ≡ some old
            → old.as_of_sequence ≤ snap.as_of_sequence))
      ⊎ ((old : AccountSnapshot) × (lookup snap.aggregate_id m.snapshots ≡ some old)
          × (snap.as_of_sequence ≤ old.as_of_sequence)
          × ((save_snapshot snap m).1 ≡ m))
unfolding save_snapshot
save_cases snap m = elim (Option-cases (lookup snap.aggregate_id m.snapshots)) [
  | inl e ↦ inl (rw (e, save_snapshot) refl, λ old found. absurd (cc (e, found)))
  | inr (old, e) ↦ elim (Bool-cases (leb snap.as_of_sequence old.as_of_sequence)) [
    | inl stale ↦ inr (old, e, ground arith, rw (e, save_snapshot) (rw stale refl))
    | inr fresh ↦ inl (
      rw (e, save_snapshot) (rw fresh refl),
      λ older found.
          let same : old ≡ older = some_inj (sym e ∙ found) in rw (sym same) (ground arith),
    )
  ]
]

-- One at least as recent is kept.
pub save_stale :
    (snap old : AccountSnapshot) (m : MemoryStore)
    → lookup snap.aggregate_id m.snapshots ≡ some old
    → snap.as_of_sequence ≤ old.as_of_sequence
    → (save_snapshot snap m).1 ≡ m
unfolding save_snapshot
save_stale snap old m found stale =
    let older : leb snap.as_of_sequence old.as_of_sequence ≡ true = ground arith in
    rw (found, save_snapshot) (rw older refl)

pub saves_streams :
    (snap : AccountSnapshot) (m : MemoryStore) → (save_snapshot snap m).1.streams ≡ m.streams
saves_streams snap m = elim (save_cases snap m) [
  | inl (written, _) ↦ rw written refl
  | inr (old, found, stale, kept) ↦ rw kept refl
]
