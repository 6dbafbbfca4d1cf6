-- ===== src/Domain/Money/Digits.antt =====
-- The decimal digits of a number as code points, and what reading them gives.
use Prim.Native.Char.{code}
use Prim.Native.String.{◌++◌ as concat}
use text.Mathlib.TextLemmas.{nil-append, cons-append}
use go_odtbank.Base.{
  ℕ, zero, suc, ◌+◌, ◌/◌, ◌%◌, ◌≤◌, ◌<◌, String, ◌≡◌, refl, ap, ◌∙◌, inl, inr, ltb, Bool-cases,
  List, [], ◌∷◌, ◌++◌, append_assoc, All, All-append, codes, trim_space, trim_left, trim_right,
  digit_text, decimal_rounds, arith, if◌then◌else◌,
}
use go_odtbank.Domain.Money.{digits_value}

pub codes-concat : (s t : String) → codes (concat s t) ≡ codes s ++ codes t
codes-concat String.[] t = ap codes (nil-append t)
codes-concat (String.◌∷◌ c s) t =
    ap codes (cons-append c s t) ∙ ap (λ (l : List ℕ). code c ∷ l) (codes-concat s t)

-- A sign, a point or a digit: the code points from '-' to '9'.
abbrev pub IsPlain : ℕ → Type 0
IsPlain c = (45 ≤ c) × (c ≤ 57)

abbrev pub IsDigit : ℕ → Type 0
IsDigit c = (48 ≤ c) × (c ≤ 57)

trim_left-plain : (s : String) → All IsPlain (codes s) → trim_left s ≡ s
unfolding trim_left
trim_left-plain String.[] p = refl
trim_left-plain (String.◌∷◌ c s) p = ground arith

keep_front-plain : (s : String) → All IsPlain (codes s) → trim_right s ≡ s
unfolding trim_right
keep_front-plain String.[] p = refl
keep_front-plain (String.◌∷◌ c String.[]) p = ground arith
keep_front-plain (String.◌∷◌ c (String.◌∷◌ d s)) p = rw (keep_front-plain (String.◌∷◌ d s) p.1) refl

pub trim_space-plain : (s : String) → All IsPlain (codes s) → trim_space s ≡ s
unfolding trim_space
trim_space-plain s p = rw (trim_left-plain s p) (keep_front-plain s p)

-- The digits of `n`, with one round for each but the last.
unfoldable pub dec : ℕ → ℕ → List ℕ
dec zero n = (48 + n % 10) ∷ []
dec (suc fuel) n =
    let front = dec fuel (n / 10) in if ltb n 10 then (48 + n) ∷ [] else front ++ (48 + n % 10) ∷ []

codes-digit_text : (d : ℕ) → d < 10 → codes (digit_text d) ≡ (48 + d) ∷ []
unfolding digit_text
codes-digit_text zero h = refl
codes-digit_text (suc zero) h = refl
codes-digit_text (suc (suc zero)) h = refl
codes-digit_text (suc (suc (suc zero))) h = refl
codes-digit_text (suc (suc (suc (suc zero)))) h = refl
codes-digit_text (suc (suc (suc (suc (suc zero))))) h = refl
codes-digit_text (suc (suc (suc (suc (suc (suc zero)))))) h = refl
codes-digit_text (suc (suc (suc (suc (suc (suc (suc zero))))))) h = refl
codes-digit_text (suc (suc (suc (suc (suc (suc (suc (suc zero)))))))) h = refl
codes-digit_text (suc (suc (suc (suc (suc (suc (suc (suc (suc zero))))))))) h = refl
codes-digit_text (suc (suc (suc (suc (suc (suc (suc (suc (suc (suc d)))))))))) h =
    absurd (omega arith)

pub codes-decimal_rounds : (fuel n : ℕ) → codes (decimal_rounds fuel n) ≡ dec fuel n
unfolding decimal_rounds dec
codes-decimal_rounds zero n = codes-digit_text (n % 10) (omega arith)
codes-decimal_rounds (suc fuel) n = elim (Bool-cases (ltb n 10)) [
  | inl one ↦ rw one (codes-digit_text n (ground arith))
  | inr more ↦ rw more (
      codes-concat (decimal_rounds fuel (n / 10)) (digit_text (n % 10))
      ∙ rw (codes-decimal_rounds fuel (n / 10), codes-digit_text (n % 10) (omega arith)) refl)
]

pub dec-IsDigit : (fuel n : ℕ) → All IsDigit (dec fuel n)
unfolding dec
dec-IsDigit zero n = (omega arith, tt)
dec-IsDigit (suc fuel) n = elim (Bool-cases (ltb n 10)) [
  | inl one ↦ rw one (ground arith)
  | inr more ↦ rw more (
      All-append IsDigit (dec fuel (n / 10)) ((48 + n % 10) ∷ []) (dec-IsDigit fuel (n / 10))
        (omega arith))
]

-- Reading the digits of `n` gives `n`, whatever follows.
pub digits_value-dec :
    (fuel n : ℕ) (rest : List ℕ)
    → n ≤ fuel
    → digits_value 0 (dec fuel n ++ rest) ≡ digits_value n rest
unfolding dec digits_value
digits_value-dec zero n rest h = ground arith
digits_value-dec (suc fuel) n rest h = elim (Bool-cases (ltb n 10)) [
  | inl one ↦ rw one (ground arith)
  | inr more ↦ rw more (
      ap (digits_value 0) (append_assoc (dec fuel (n / 10)) ((48 + n % 10) ∷ []) rest)
      ∙ digits_value-dec fuel (n / 10) ((48 + n % 10) ∷ rest) (ground arith)
      ∙ ground arith)
]
