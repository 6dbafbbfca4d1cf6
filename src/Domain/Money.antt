-- ===== src/Domain/Money.antt =====
-- internal/domain/money.go: amounts of cents as decimal texts, with `strconv.ParseInt`,
-- `strings.Split` and `fmt.Sprintf` of the Go library where the file uses them. `Money` is declared
-- with the events.
pub mod Digits
pub mod RoundTrip
use Prim.Native.String.{◌++◌ as concat}
use go_odtbank.Base.{
  ℕ, suc, ◌+◌, ◌-◌, ◌*◌, ◌%◌, ◌^◌, String, Bool, true, false, ◌&&◌, ◌||◌, ℤ, pos, negsuc, ◌-ℤ◌,
  add64, sub64, ltb_ℤ, max_int64, sub_ℕ, ltb, leb, ◌==◌, List, [], ◌∷◌, ◌++◌, Option, none, some,
  codes, byte_count, trim_space, sprint_int, if◌then◌else◌,
}
use go_odtbank.Domain.Event.{Money}
use go_odtbank.Domain.Error.{Result, ok, err, invalid_money}
use go_odtbank.Policy.{mul64, div64}

-- The texts are their code points here: 43 is '+', 45 '-', 46 '.', 48 to 57 the digits.
pub digits_value : ℕ → List ℕ → Option ℕ
digits_value acc [] = some acc
digits_value acc (c ∷ cs) =
    let rest = digits_value (acc * 10 + (c - 48)) cs in if leb 48 c && leb c 57 then rest else none

abbrev in_range : Option ℕ → Option ℤ
in_range none = none
in_range (some n) = if ltb n (2 ^ 63) then some (pos n) else none

abbrev in_range_negative : Option ℕ → Option ℤ
in_range_negative none = none
in_range_negative (some n) = if leb n (2 ^ 63) then some (sub_ℕ 0 n) else none

pub digits : List ℕ → Option ℕ
unfolding digits_value
digits [] = none
digits (c ∷ cs) = digits_value 0 (c ∷ cs)

-- `strconv.ParseInt(s, 10, 64)`: one sign, then digits, within the range.
unfoldable pub parse_int : List ℕ → Option ℤ
unfolding digits
parse_int [] = none
parse_int (c ∷ cs) =
    if c == 43
    then in_range (digits cs)
    else if c == 45
    then in_range_negative (digits cs)
    else in_range (digits (c ∷ cs))

abbrev onto : ℕ → List ℕ × List (List ℕ) → List ℕ × List (List ℕ)
onto c (part, parts) = (c ∷ part, parts)

-- `strings.Split(s, ".")`, as the first part and the others.
unfoldable pub split_dots : List ℕ → List ℕ × List (List ℕ)
split_dots [] = ([], [])
split_dots (c ∷ cs) =
    let rest = split_dots cs in if c == 46 then ([], rest.0 ∷ rest.1) else onto c rest

pub has_exponent : List ℕ → Bool
has_exponent [] = false
has_exponent (c ∷ cs) = c == 101 || c == 69 || has_exponent cs

-- The loop that fills the fraction up to two bytes.
abbrev pad : List ℕ → List ℕ
pad [] = 48 ∷ 48 ∷ []
pad (c ∷ cs) = if leb 2 (byte_count (c ∷ cs)) then c ∷ cs else (c ∷ cs) ++ 48 ∷ []

-- `whole*100 + cents`, unless `whole` is above the bound; the products and sums wrap.
unfoldable pub combine : Bool → Option ℤ → Option ℤ → Result Money
combine negative none cents = err invalid_money
combine negative (some whole) none = err invalid_money
combine negative (some whole) (some cents) =
    let sum = add64 (mul64 whole (pos 100)) cents in
    if ltb_ℤ (div64 (sub64 max_int64 cents) 100) whole
    then err invalid_money
    else ok (if negative then sub64 (pos 0) sum else sum)

-- The text after the sign, by its parts.
unfoldable pub parse_parts : Bool → List ℕ × List (List ℕ) → Result Money
unfolding combine parse_int byte_count
parse_parts negative ([], parts) = err invalid_money
parse_parts negative (c ∷ cs, []) = combine negative (parse_int (c ∷ cs)) (parse_int (pad []))
parse_parts negative (c ∷ cs, frac ∷ []) =
    if ltb 2 (byte_count frac)
    then err invalid_money
    else combine negative (parse_int (c ∷ cs)) (parse_int (pad frac))
parse_parts negative (c ∷ cs, frac ∷ more ∷ parts) = err invalid_money

-- `ParseMoney` after the spaces are trimmed.
unfoldable pub parse_trimmed : List ℕ → Result Money
unfolding has_exponent parse_parts split_dots
parse_trimmed [] = err invalid_money
parse_trimmed (c ∷ cs) =
    if has_exponent (c ∷ cs)
    then err invalid_money
    else if c == 45
    then parse_parts true (split_dots cs)
    else parse_parts false (split_dots (c ∷ cs))

unfoldable pub parse_money : String → Result Money
unfolding parse_trimmed
parse_money value = parse_trimmed (codes (trim_space value))

-- Go's remainder by a positive constant has the sign of the dividend.
abbrev rem64 : ℤ → ℕ → ℤ
rem64 (pos n) k = pos (n % k)
rem64 (negsuc n) k = pos 0 -ℤ pos (suc n % k)

-- `%02d`: a sign counts as one of the two places.
abbrev two_places : ℤ → String
two_places (pos n) = if ltb n 10 then concat "0" (sprint_int (pos n)) else sprint_int (pos n)
two_places (negsuc n) = sprint_int (negsuc n)

abbrev with_sign : String → ℤ → String
with_sign sign n =
    concat sign (concat (sprint_int (div64 n 100)) (concat "." (two_places (rem64 n 100))))

-- `Money.String`, which is also what `MarshalJSON` writes. The least int64 is its own negation.
unfoldable pub money_text : Money → String
money_text m = if ltb_ℤ m (pos 0) then with_sign "-" (sub64 (pos 0) m) else with_sign "" m
