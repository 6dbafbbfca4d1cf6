-- ===== src/Postgres/Steady.antt =====
-- Calls under faults: one that succeeds has run as it does when no call fails, and a transaction of
-- such calls changes all that it would change then, or nothing.
use go_odtbank.Base.{
  ◌≡◌, refl, ◌∙◌, ◌⊎◌, inl, inr, Bool, true, false, Option, none, some, if◌then◌else◌,
}
use go_odtbank.Domain.Error.{Error, Result, ok, err}
use go_odtbank.Postgres.{
  Database, Fault, refused, lost, Faults, quiet, Wire, Db, Statement, Ending, commits, leaves,
  answered, begun, committed, exec, after, guard, pure, raise, lift, transaction, finish_with,
  ◌>>=◌,
}
use go_odtbank.Postgres.Runs.{called, then_ok, transaction-commits}

unfoldable pub IsSteady : {A : Type 0} → Db A → Type 0
IsSteady {A = A} m =
    (faults : Faults) (w : Wire) (a : A) (w' : Wire)
    → m faults w ≡ (ok a, w')
    → m quiet w ≡ (ok a, w')

-- A call that succeeds has succeeded in its parts.
after-ok :
    {A B : Type 0} (k : A → Db B) (faults : Faults) (x : Result A × Wire) (b : B) (w' : Wire)
    → after k faults x ≡ (ok b, w')
    → (a : A) × (w1 : Wire) × (x ≡ (ok a, w1)) × (k a faults w1 ≡ (ok b, w'))
unfolding after
after-ok k faults (ok a, w1) b w' h = (a, w1, refl, h)
after-ok k faults (err e, w1) b w' h = cc h

pub split_ok :
    {A B : Type 0} (m : Db A) (k : A → Db B) (faults : Faults) (w : Wire) (b : B) (w' : Wire)
    → (m >>= k) faults w ≡ (ok b, w')
    → (a : A) × (w1 : Wire) × (m faults w ≡ (ok a, w1)) × (k a faults w1 ≡ (ok b, w'))
split_ok m k faults w b w' h = after-ok k faults (m faults w) b w' h

pub >>=-IsSteady :
    {A B : Type 0} (m : Db A) (k : A → Db B)
    → IsSteady m
    → ((a : A) → IsSteady (k a))
    → IsSteady (m >>= k)
unfolding IsSteady
>>=-IsSteady m k f g faults w b w' h =
    let (a, w1, e, h') = split_ok m k faults w b w' h in
    then_ok m k (f faults w a w1 e) ∙ g a faults w1 b w' h'

answered-ok :
    {A : Type 0} (s : Statement A) (w : Wire) (f : Option Fault) (a : A) (w' : Wire)
    → answered s w f ≡ (ok a, w')
    → answered s w none ≡ (ok a, w')
answered-ok s w none a w' h = h
answered-ok s w (some (refused e)) a w' h = cc h
answered-ok s w (some (lost e)) a w' h = cc h

pub exec-IsSteady : {A : Type 0} (s : Statement A) → IsSteady (exec s)
unfolding exec IsSteady
exec-IsSteady s faults w a w' h = answered-ok s w (faults w.calls) a w' h

pub lift-IsSteady : {A : Type 0} (r : Result A) → IsSteady (lift r)
unfolding IsSteady
lift-IsSteady r faults w a w' h = h

pub pure-IsSteady : {A : Type 0} (b : A) → IsSteady (pure b)
unfolding IsSteady
pure-IsSteady b faults w a w' h = h

pub raise-IsSteady : (A : Type 0) (e : Error) → IsSteady (raise {A = A} e)
unfolding IsSteady
raise-IsSteady A e faults w a w' h = h

pub if-IsSteady :
    {A : Type 0} (c : Bool) (m k : Db A) → IsSteady m → IsSteady k → IsSteady (if c then m else k)
unfolding IsSteady
if-IsSteady true m k f g = f
if-IsSteady false m k f g = g

pub guard-IsSteady : (c : Bool) (e : Error) → IsSteady (guard c e)
guard-IsSteady c e = if-IsSteady c (raise e) (pure tt) (raise-IsSteady _ e) (pure-IsSteady tt)

-- The tables afterwards are those before, or those of the run in which no call fails.
abbrev pub AllOrNothing : {A : Type 0} → Db A → Faults → Wire → Type 0
AllOrNothing {A = A} m faults w =
    ((m faults w).1.tables ≡ w.tables)
    ⊎ ((a : A) × (w' : Wire) × (m quiet w ≡ (ok a, w')) × ((m faults w).1.tables ≡ w'.tables))

committed-AllOrNothing :
    {A : Type 0} (before : Database) (a : A) (w : Wire) (f : Option Fault)
    → ((committed before a w f).1.tables ≡ before) ⊎ ((committed before a w f).1.tables ≡ w.tables)
committed-AllOrNothing before a w none = inr refl
committed-AllOrNothing before a w (some (refused e)) = inl refl
committed-AllOrNothing before a w (some (lost e)) = inr refl

-- The end of the body changes nothing, or the body has reached its `Commit`.
pub finish_with-cases :
    {A : Type 0} (before : Database) (faults : Faults) (x : Result (Ending A) × Wire)
    → ((finish_with before faults x).1.tables ≡ before)
      ⊎ ((a : A) × (w1 : Wire) × (x ≡ (ok (commits a), w1))
          × ((finish_with before faults x).1.tables ≡ w1.tables))
finish_with-cases before faults (err e, w1) = inl refl
finish_with-cases before faults (ok (leaves a), w1) = inl refl
finish_with-cases before faults (ok (commits a), w1) =
    elim (committed-AllOrNothing before a w1 (faults w1.calls)) [
      | inl e ↦ inl e
      | inr e ↦ inr (a, w1, refl, e)
    ]

-- A transaction changes nothing, or its body has reached its `Commit`.
begun-cases :
    {A : Type 0} (body : Db (Ending A)) (faults : Faults) (w : Wire) (f : Option Fault)
    → ((begun body faults w f).1.tables ≡ w.tables)
      ⊎ ((a : A) × (w1 : Wire) × (body faults (called w) ≡ (ok (commits a), w1))
          × ((begun body faults w f).1.tables ≡ w1.tables))
begun-cases body faults w none = finish_with-cases w.tables faults (body faults (called w))
begun-cases body faults w (some (refused e)) = inl refl
begun-cases body faults w (some (lost e)) = inl refl

pub transaction-cases :
    {A : Type 0} (body : Db (Ending A)) (faults : Faults) (w : Wire)
    → ((transaction body faults w).1.tables ≡ w.tables)
      ⊎ ((a : A) × (w1 : Wire) × (body faults (called w) ≡ (ok (commits a), w1))
          × ((transaction body faults w).1.tables ≡ w1.tables))
unfolding transaction
transaction-cases body faults w = begun-cases body faults w (faults w.calls)

pub transaction-AllOrNothing :
    {A : Type 0} (body : Db (Ending A)) (faults : Faults) (w : Wire)
    → IsSteady body
    → AllOrNothing (transaction body) faults w
unfolding IsSteady
transaction-AllOrNothing body faults w steady = elim (transaction-cases body faults w) [
  | inl e ↦ inl e
  | inr (a, w1, h, e) ↦
      inr (a, called w1, transaction-commits body w (steady faults (called w) (commits a) w1 h), e)
]
