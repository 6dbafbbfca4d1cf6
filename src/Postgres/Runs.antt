-- ===== src/Postgres/Runs.antt =====
-- How a call runs when its first part has run, and how a transaction ends when no call fails.
use go_odtbank.Base.{◌+◌, ap, ◌≡◌, refl, Bool, false, true}
use go_odtbank.Domain.Error.{Error, ok, err}
use go_odtbank.Postgres.{
  Faults, Wire, after, Db, Ending, commits, leaves, guard, transaction, finish_with, quiet, ◌>>=◌,
}

-- One more call has been made.
abbrev pub called : Wire → Wire
called w = record w { calls = w.calls + 1 }

module _ {A B : Type 0} {faults : Faults} {w w' : Wire} where
  pub then_ok :
      (m : Db A) (k : A → Db B) {a : A}
      → m faults w ≡ (ok a, w')
      → (m >>= k) faults w ≡ k a faults w'
  unfolding after
  then_ok m k e = ap (after k faults) e

  pub then_err :
      (m : Db A) (k : A → Db B) {e : Error}
      → m faults w ≡ (err e, w')
      → (m >>= k) faults w ≡ (err e, w')
  unfolding after
  then_err m k h = ap (after k faults) h

pub guard_passes :
    (c : Bool) (e : Error) (faults : Faults) (w : Wire)
    → c ≡ false
    → guard c e faults w ≡ (ok tt, w)
guard_passes c e faults w h = rw h refl

pub guard_stops :
    (c : Bool) (e : Error) (faults : Faults) (w : Wire) → c ≡ true → guard c e faults w ≡ (err e, w)
guard_stops c e faults w h = rw h refl

module _ {A : Type 0} (body : Db (Ending A)) (w : Wire) {w' : Wire} where
  pub transaction-commits :
      {a : A}
      → body quiet (called w) ≡ (ok (commits a), w')
      → transaction body quiet w ≡ (ok a, called w')
  unfolding transaction
  transaction-commits e = ap (finish_with w.tables quiet) e

  pub transaction-leaves :
      {a : A}
      → body quiet (called w) ≡ (ok (leaves a), w')
      → transaction body quiet w ≡ (ok a, record w' { tables = w.tables })
  unfolding transaction
  transaction-leaves e = ap (finish_with w.tables quiet) e

  pub transaction-fails :
      {e : Error}
      → body quiet (called w) ≡ (err e, w')
      → transaction body quiet w ≡ (err e, record w' { tables = w.tables })
  unfolding transaction
  transaction-fails e = ap (finish_with w.tables quiet) e
