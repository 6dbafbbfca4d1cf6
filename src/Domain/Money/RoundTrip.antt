-- ===== src/Domain/Money/RoundTrip.antt =====
-- The text of an amount is read back as that amount.
use go_odtbank.Base.{
  ◌==◌, ℕ, zero, suc, ◌+◌, ◌-◌, ◌*◌, ◌/◌, ◌%◌, ◌^◌, ◌<◌, String, ◌≡◌, refl, sym, ap, ap₂, subst,
  ◌∙◌, inl, inr, Bool, true, false, ltb, ltb_ℤ, Bool-cases, pos, negsuc, add64, sub64, wrap64,
  InRange64, ◌+ℤ◌, ◌-ℤ◌, max_int64, min_int64, List, [], ◌∷◌, ◌++◌, append-nil, some, All,
  All-append, codes, sprint_int, byte_count, trim_space, arith, if◌then◌else◌,
}
use go_odtbank.Domain.Event.{Money}
use go_odtbank.Domain.Error.{ok}
use go_odtbank.Policy.{mul64, div64}
use go_odtbank.Domain.Money.{
  digits, digits_value, has_exponent, split_dots, parse_int, parse_parts, parse_trimmed,
  parse_money, combine, two_places, with_sign, money_text, pad,
}
use go_odtbank.Domain.Money.Digits.{
  codes-concat, IsPlain, IsDigit, trim_space-plain, dec, codes-decimal_rounds, dec-IsDigit,
  digits_value-dec,
}

digits-IsPlain : (xs : List ℕ) → All IsDigit xs → All IsPlain xs
digits-IsPlain [] h = tt
digits-IsPlain (x ∷ xs) h = (omega arith, digits-IsPlain xs h.1)

has_exponent-plain : (xs : List ℕ) → All IsPlain xs → has_exponent xs ≡ false
unfolding has_exponent
has_exponent-plain [] h = refl
has_exponent-plain (x ∷ xs) h = ground (arith, has_exponent-plain xs h.1)

split_dots-digits : (xs : List ℕ) → All IsDigit xs → split_dots xs ≡ (xs, [])
unfolding split_dots
split_dots-digits [] h = refl
split_dots-digits (x ∷ xs) h = ground (arith, split_dots-digits xs h.1)

split_dots-point :
    (xs ys : List ℕ) → All IsDigit xs → All IsDigit ys → split_dots (xs ++ 46 ∷ ys) ≡ (xs, ys ∷ [])
unfolding split_dots
split_dots-point [] ys hx hy = rw (split_dots-digits ys hy) refl
split_dots-point (x ∷ xs) ys hx hy = ground (arith, split_dots-point xs ys hx.1 hy)

parse_int-digits :
    (c : ℕ) (cs : List ℕ) (n : ℕ)
    → IsDigit c
    → digits_value 0 (c ∷ cs) ≡ some n
    → n < 2 ^ 63
    → parse_int (c ∷ cs) ≡ some (pos n)
unfolding parse_int digits
parse_int-digits c cs n d v h = ground arith

-- The digits of `n` are not empty.
abbrev Cons : List ℕ → Type 0
Cons [] = ⊥
Cons (c ∷ cs) = IsDigit c

append-Cons : (xs ys : List ℕ) → Cons xs → Cons (xs ++ ys)
append-Cons (x ∷ xs) ys h = h
append-Cons [] ys h = absurd h

dec-Cons : (fuel n : ℕ) → Cons (dec fuel n)
unfolding dec
dec-Cons zero n = omega arith
dec-Cons (suc fuel) n = elim (Bool-cases (ltb n 10)) [
  | inl one ↦ rw one (ground arith)
  | inr more ↦
      rw more (append-Cons (dec fuel (n / 10)) ((48 + n % 10) ∷ []) (dec-Cons fuel (n / 10)))
]

parse_int-dec : (n : ℕ) → n < 2 ^ 63 → parse_int (dec n n) ≡ some (pos n)
unfolding digits_value
parse_int-dec n h = go (dec n n) (dec-Cons n n) value
  where
    value : digits_value 0 (dec n n) ≡ some n
    value =
        ap (digits_value 0) (sym (append-nil (dec n n)))
        ∙ digits_value-dec n n [] (omega arith)
        ∙ refl

    go : (xs : List ℕ) → Cons xs → digits_value 0 xs ≡ some n → parse_int xs ≡ some (pos n)
    go [] c v = absurd c
    go (x ∷ xs) c v = parse_int-digits x xs n c v h

dec_one : (fuel n : ℕ) → n < 10 → dec fuel n ≡ (48 + n) ∷ []
unfolding dec
dec_one zero n h = ground arith
dec_one (suc fuel) n h = ground arith

dec_two : (n : ℕ) → n < 100 → ltb n 10 ≡ false → dec n n ≡ (48 + n / 10) ∷ (48 + n % 10) ∷ []
unfolding dec
dec_two zero h b = absurd (cc b)
dec_two (suc fuel) h b = rw (b, dec_one fuel (suc fuel / 10) (omega arith)) refl

codes-two_places :
    (n : ℕ) → n < 100 → codes (two_places (pos n)) ≡ (48 + n / 10) ∷ (48 + n % 10) ∷ []
unfolding sprint_int
codes-two_places n h = elim (Bool-cases (ltb n 10)) [
  | inl one ↦ rw one (
      codes-concat "0" _ ∙ rw (codes-decimal_rounds n n, dec_one n n (ground arith)) (ground arith))
  | inr two ↦ rw two (codes-decimal_rounds n n ∙ dec_two n h two)
]

mul64-hundred : (w : ℕ) → w * 100 < 2 ^ 63 → mul64 (pos w) (pos 100) ≡ pos (w * 100)
unfolding mul64 wrap64
mul64-hundred w h = ground arith

in_bound :
    (w c : ℕ)
    → c < 100
    → w * 100 + c < 2 ^ 63
    → ltb_ℤ (div64 (sub64 max_int64 (pos c)) 100) (pos w) ≡ false
unfolding sub64 wrap64 div64 ◌-ℤ◌
in_bound w c h b = ground arith

add64-cents : (w c : ℕ) → w * 100 + c < 2 ^ 63 → add64 (pos (w * 100)) (pos c) ≡ pos (w * 100 + c)
unfolding add64 wrap64 ◌+ℤ◌
add64-cents w c b = ground arith

combine-exact :
    (negative : Bool) (w c : ℕ)
    → c < 100
    → w * 100 + c < 2 ^ 63
    → combine negative (some (pos w)) (some (pos c))
      ≡ ok (if negative then sub64 (pos 0) (pos (w * 100 + c)) else pos (w * 100 + c))
unfolding combine
combine-exact negative w c h b =
    rw (mul64-hundred w (omega arith), in_bound w c h b, add64-cents w c b) refl

-- The code points of an amount of `n` cents, after the sign.
abbrev cents_text : ℕ → List ℕ
cents_text n = dec (n / 100) (n / 100) ++ 46 ∷ (48 + n % 100 / 10) ∷ (48 + n % 100 % 10) ∷ []

places_IsDigit : (n : ℕ) → All IsDigit ((48 + n % 100 / 10) ∷ (48 + n % 100 % 10) ∷ [])
places_IsDigit n = omega arith

cents_text-IsPlain : (n : ℕ) → All IsPlain (cents_text n)
cents_text-IsPlain n =
    All-append IsPlain (dec (n / 100) (n / 100)) _
      (digits-IsPlain (dec (n / 100) (n / 100)) (dec-IsDigit (n / 100) (n / 100))) (omega arith)

codes-with_sign :
    (sign : String) (n : ℕ) → codes (with_sign sign (pos n)) ≡ codes sign ++ cents_text n
unfolding sprint_int div64
codes-with_sign sign n =
    codes-concat sign _
    ∙ ap (λ (l : List ℕ). codes sign ++ l)
        (codes-concat (sprint_int (pos (n / 100))) _
          ∙ ap₂ ◌++◌ (codes-decimal_rounds (n / 100) (n / 100)) (
              codes-concat "." _
              ∙ ap (λ (l : List ℕ). 46 ∷ l) (codes-two_places (n % 100) (omega arith))))

parse_parts-point :
    (negative : Bool) (xs : List ℕ) (w c : ℕ)
    → Cons xs
    → parse_int xs ≡ some (pos w)
    → c < 100
    → w * 100 + c < 2 ^ 63
    → parse_parts negative (xs, ((48 + c / 10) ∷ (48 + c % 10) ∷ []) ∷ [])
      ≡ ok (if negative then sub64 (pos 0) (pos (w * 100 + c)) else pos (w * 100 + c))
unfolding parse_parts byte_count digits_value
parse_parts-point negative [] w c d whole h b = absurd d
parse_parts-point negative (x ∷ xs) w c d whole h b =
    let frac : List ℕ = (48 + c / 10) ∷ (48 + c % 10) ∷ [] in
    let short : ltb 2 (byte_count frac) ≡ false = ground arith in
    let full : pad frac ≡ frac = ground arith in
    let value : parse_int frac ≡ some (pos c) =
      parse_int-digits (48 + c / 10) ((48 + c % 10) ∷ []) c (omega arith) (ground arith)
        (omega arith) in
    rw (short, full, whole, value) (combine-exact negative w c h b)

parse_parts-cents :
    (negative : Bool) (n : ℕ)
    → n < 2 ^ 63
    → parse_parts negative (split_dots (cents_text n))
      ≡ ok (if negative then sub64 (pos 0) (pos n) else pos n)
parse_parts-cents negative n h =
    let w = n / 100 in
    let whole : w * 100 + n % 100 ≡ n = omega arith in
    let parts =
      split_dots-point (dec w w) ((48 + n % 100 / 10) ∷ (48 + n % 100 % 10) ∷ []) (dec-IsDigit w w)
        (places_IsDigit n) in
    let read =
      parse_parts-point negative (dec w w) w (n % 100) (dec-Cons w w)
        (parse_int-dec w (omega arith)) (omega arith) (omega arith) in
    rw parts (
      subst
        (λ (k : ℕ).
          parse_parts negative (dec w w, ((48 + n % 100 / 10) ∷ (48 + n % 100 % 10) ∷ []) ∷ [])
          ≡ ok (if negative then sub64 (pos 0) (pos k) else pos k))
        whole read)

parse_trimmed-positive :
    (xs : List ℕ) → Cons xs → All IsPlain xs → parse_trimmed xs ≡ parse_parts false (split_dots xs)
unfolding parse_trimmed
parse_trimmed-positive [] d p = absurd d
parse_trimmed-positive (x ∷ xs) d p =
    let unsigned : (x == 45) ≡ false = ground arith in
    rw (has_exponent-plain (x ∷ xs) p, unsigned) refl

parse_trimmed-negative :
    (xs : List ℕ) → All IsPlain xs → parse_trimmed (45 ∷ xs) ≡ parse_parts true (split_dots xs)
unfolding parse_trimmed
parse_trimmed-negative xs p = rw (has_exponent-plain (45 ∷ xs) (omega arith, p)) refl

plain_text :
    (s : String) (xs : List ℕ) → codes s ≡ xs → All IsPlain xs → parse_money s ≡ parse_trimmed xs
unfolding parse_money
plain_text s xs e p =
    ap (λ (t : String). parse_trimmed (codes t))
      (trim_space-plain s (subst (λ (l : List ℕ). All IsPlain l) (sym e) p))
    ∙ ap parse_trimmed e

money_text-pos : (n : ℕ) → money_text (pos n) ≡ with_sign "" (pos n)
unfolding money_text
money_text-pos n = let above : ltb_ℤ (pos n) (pos 0) ≡ false = ground arith in rw above refl

negate : (n : ℕ) → suc n < 2 ^ 63 → sub64 (pos 0) (negsuc n) ≡ pos (suc n)
unfolding sub64 wrap64 ◌-ℤ◌
negate n h = ground arith

negated : (n : ℕ) → suc n < 2 ^ 63 → sub64 (pos 0) (pos (suc n)) ≡ negsuc n
unfolding sub64 wrap64 ◌-ℤ◌
negated n h = ground arith

money_text-negsuc : (n : ℕ) → suc n < 2 ^ 63 → money_text (negsuc n) ≡ with_sign "-" (pos (suc n))
unfolding money_text
money_text-negsuc n h =
    let below : ltb_ℤ (negsuc n) (pos 0) ≡ true = ground arith in rw (below, negate n h) refl

parse-text_positive : (n : ℕ) → n < 2 ^ 63 → parse_money (money_text (pos n)) ≡ ok (pos n)
parse-text_positive n h =
    let xs = cents_text n in
    ap parse_money (money_text-pos n)
    ∙ plain_text (with_sign "" (pos n)) xs (codes-with_sign "" n) (cents_text-IsPlain n)
    ∙ parse_trimmed-positive xs
        (append-Cons (dec (n / 100) (n / 100)) _ (dec-Cons (n / 100) (n / 100)))
        (cents_text-IsPlain n)
    ∙ parse_parts-cents false n h

parse-text_negative : (n : ℕ) → suc n < 2 ^ 63 → parse_money (money_text (negsuc n)) ≡ ok (negsuc n)
parse-text_negative n h =
    let xs = cents_text (suc n) in
    ap parse_money (money_text-negsuc n h)
    ∙ plain_text (with_sign "-" (pos (suc n))) (45 ∷ xs) (codes-with_sign "-" (suc n))
        (omega arith, cents_text-IsPlain (suc n))
    ∙ parse_trimmed-negative xs (cents_text-IsPlain (suc n))
    ∙ parse_parts-cents true (suc n) h
    ∙ ap ok (negated n h)

parse-text_least : parse_money (money_text min_int64) ≡ ok min_int64
unfolding parse_money money_text trim_space sprint_int div64 mul64 sub64 add64 wrap64 ◌-ℤ◌ ◌+ℤ◌
parse-text_least = refl

-- The text of every amount, the least int64 included, is read back as that amount.
pub parse_money-money_text : (n : Money) → InRange64 n → parse_money (money_text n) ≡ ok n
parse_money-money_text (pos n) h = parse-text_positive n (omega arith)
parse_money-money_text (negsuc n) h = elim (Bool-cases (ltb (suc n) (2 ^ 63))) [
  | inl above ↦ parse-text_negative n (ground arith)
  | inr least ↦
      let e : n ≡ 2 ^ 63 - 1 = ground arith in
      subst (λ (k : ℕ). parse_money (money_text (negsuc k)) ≡ ok (negsuc k)) (sym e)
        parse-text_least
]
