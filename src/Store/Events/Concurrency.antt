-- ===== src/Store/Events/Concurrency.antt =====
-- Optimistic concurrency: `Append` at an expected version.
use go_odtbank.Base.{
  ℕ, ◌+◌, String, ◌≡◌, ◌≢◌, inl, inr, refl, ap, [], ◌∷◌, ◌++◌, stream, stream-insert_self,
  stream-insert_ne, length, length-append, ◌==◌, Bool-cases, arith,
}
use go_odtbank.Domain.Event.{Event, aggregate_id}
use go_odtbank.Domain.Error.{ok, err, concurrency_conflict}
use go_odtbank.Store.{MemoryStore, Outcome}
use go_odtbank.Store.Events.{append}

-- What an append at an expected version has done.
abbrev pub Appends : Event → ℕ → MemoryStore → Outcome (Unit {0}) → Type 0
Appends e expected m (ok _, m') =
    (length (stream (aggregate_id e) m.streams) ≡ expected)
    × (m' ≡ record m { streams = m'.streams })
    × (stream (aggregate_id e) m'.streams ≡ stream (aggregate_id e) m.streams ++ e ∷ [])
    × ((j : String) → j ≢ aggregate_id e → stream j m'.streams ≡ stream j m.streams)
Appends e expected m (err x, m') =
    (x ≡ concurrency_conflict) × (m' ≡ m) × (length (stream (aggregate_id e) m.streams) ≢ expected)

-- An append is made exactly when the expected version is the length of the event's stream. It then
-- puts the event behind that stream and changes nothing else; otherwise it reports a conflict and
-- changes nothing.
pub append_lem :
    (e : Event) (expected : ℕ) (m : MemoryStore) → Appends e expected m (append e expected m)
unfolding append
append_lem e expected m =
    let k = aggregate_id e in
    let s = stream k m.streams in
    elim (Bool-cases (length s == expected)) [
      | inl now ↦ rw now (
        ground arith,
        refl,
        stream-insert_self k _ m.streams,
        λ j h. stream-insert_ne j k _ m.streams h,
      )
      | inr stale ↦ rw stale (refl, refl, ground arith)
    ]

-- Of two writers that loaded the same stream at the same version, the one that appends second gets
-- a conflict, and the store stays as the first left it.
pub append_conflict :
    (first second : Event) (expected : ℕ) (m m' : MemoryStore)
    → aggregate_id second ≡ aggregate_id first
    → append first expected m ≡ (ok tt, m')
    → append second expected m' ≡ (err concurrency_conflict, m')
append_conflict first second expected m m' same done =
    lost (append second expected m') (append_lem second expected m')
  where
    written : Appends first expected m (ok tt, m')
    written = rw done at (append_lem first expected m)

    longer : length (stream (aggregate_id second) m'.streams) ≡ expected + 1
    longer = rw same (
        omega (
          arith,
          ap length written.2,
          length-append (stream (aggregate_id first) m.streams) (first ∷ []),
          written.0,
        ))

    lost :
        (o : Outcome (Unit {0})) → Appends second expected m' o → o ≡ (err concurrency_conflict, m')
    lost (ok _, m'') h = absurd (omega (arith, longer, h.0))
    lost (err x, m'') h = λ i. (err (h.0 i), h.1 i)
