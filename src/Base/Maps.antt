-- ===== src/Base/Maps.antt =====
-- Go's map[string]V as an association list; an iteration over it takes the entries in list order.
use Prim.Native.String.{String}
use mathlib.Core.Path.{◌≡◌, refl}
use mathlib.Core.Logic.{◌≢◌, ◌⊎◌, inl, inr}
use mathlib.Core.Bool.{true, false}
use mathlib.Core.Option.{Option, none, some}
use mathlib.Core.List.{List, [], ◌∷◌}
use native.Mathlib.Omega.{arith}
pub use text.Mathlib.Text.{◌==◌ as str_eq}
pub use text.Mathlib.TextEquality.{eq_iff}
use go_odtbank.Base.Tests.{Bool-cases, if◌then◌else◌}

abbrev pub Dict {ℓ} : Type ℓ → Type ℓ
Dict V = List (String × V)

pub str_eq_self : (s : String) → str_eq s s ≡ true
str_eq_self s = (eq_iff s s).1 refl

pub str_eq_ne : (s t : String) → s ≢ t → str_eq s t ≡ false
str_eq_ne s t h = ground (arith, eq_iff s t)

pub str_eq_sound : (s t : String) → str_eq s t ≡ true → s ≡ t
str_eq_sound s t h = (eq_iff s t).0 h

pub str_eq_complete : (s t : String) → str_eq s t ≡ false → s ≢ t
str_eq_complete s t h e = absurd (cc (h, (eq_iff s t).1 e))

-- Two texts are equal or different.
pub String-cases : (s t : String) → (s ≡ t) ⊎ (s ≢ t)
String-cases s t = elim (Bool-cases (str_eq s t)) [
  | inl e ↦ inl (str_eq_sound s t e)
  | inr n ↦ inr (λ e. absurd (cc (n, (eq_iff s t).1 e)))
]

module _ {ℓ} {V : Type ℓ} where
  unfoldable pub lookup : String → Dict V → Option V
  lookup k [] = none
  lookup k ((j, v) ∷ d) = if str_eq j k then some v else lookup k d

  -- `d[k] = v`
  unfoldable pub insert : String → V → Dict V → Dict V
  insert k v [] = (k, v) ∷ []
  insert k v ((j, w) ∷ d) = if str_eq j k then (k, v) ∷ d else (j, w) ∷ insert k v d

  -- `delete(d, k)`
  unfoldable pub erase : String → Dict V → Dict V
  erase k [] = []
  erase k ((j, w) ∷ d) = let rest = erase k d in if str_eq j k then rest else (j, w) ∷ rest

  pub lookup-insert_self : (k : String) (v : V) (d : Dict V) → lookup k (insert k v d) ≡ some v
  unfolding lookup insert
  lookup-insert_self k v [] = rw (str_eq_self k)
  lookup-insert_self k v ((i, w) ∷ d) = ground (arith, str_eq_self k, lookup-insert_self k v d)

  pub lookup-insert_ne :
      (j k : String) (v : V) (d : Dict V) → j ≢ k → lookup j (insert k v d) ≡ lookup j d
  unfolding lookup insert
  lookup-insert_ne j k v [] h = ground (arith, eq_iff k j)
  lookup-insert_ne j k v ((i, w) ∷ d) h =
      ground (arith, eq_iff k j, eq_iff i k, eq_iff i j, lookup-insert_ne j k v d h)

  pub lookup-erase_self : (k : String) (d : Dict V) → lookup k (erase k d) ≡ none
  unfolding lookup erase
  lookup-erase_self k [] = refl
  lookup-erase_self k ((i, w) ∷ d) = ground (arith, lookup-erase_self k d)

  pub lookup-erase_ne : (j k : String) (d : Dict V) → j ≢ k → lookup j (erase k d) ≡ lookup j d
  unfolding lookup erase
  lookup-erase_ne j k [] h = refl
  lookup-erase_ne j k ((i, w) ∷ d) h =
      ground (arith, eq_iff i k, eq_iff i j, lookup-erase_ne j k d h)

-- `d[k]` on a map of slices: a missing slice reads as the empty one.
module _ {ℓ} {A : Type ℓ} where
  abbrev or_empty : Option (List A) → List A
  or_empty none = []
  or_empty (some xs) = xs

  unfoldable pub stream : String → Dict (List A) → List A
  stream k d = or_empty (lookup k d)

  pub stream-insert_self :
      (k : String) (xs : List A) (d : Dict (List A)) → stream k (insert k xs d) ≡ xs
  unfolding stream
  stream-insert_self k xs d = rw (lookup-insert_self k xs d)

  pub stream-insert_ne :
      (j k : String) (xs : List A) (d : Dict (List A))
      → j ≢ k
      → stream j (insert k xs d) ≡ stream j d
  unfolding stream
  stream-insert_ne j k xs d h = rw (lookup-insert_ne j k xs d h)
