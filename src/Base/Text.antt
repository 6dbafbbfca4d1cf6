-- ===== src/Base/Text.antt =====
-- Go's strings as native strings: code points, and `strings.TrimSpace`.
use Prim.Native.Nat.{ℕ, zero, suc, ◌+◌, ◌/◌, ◌%◌}
use Prim.Native.Char.{Char, code}
use Prim.Native.String.{String, ◌++◌ as concat}
use mathlib.Core.Bool.{Bool, ◌||◌, ◌&&◌}
use mathlib.Core.List.{List, [], ◌∷◌}
use go_odtbank.Base.Int.{ℤ, pos, negsuc}
use go_odtbank.Base.Tests.{ltb, leb, ◌==◌, if◌then◌else◌}

-- The code points of a text.
abbrev pub codes : String → List ℕ
codes String.[] = []
codes (String.◌∷◌ c s) = code c ∷ codes s

-- `unicode.IsSpace`: Unicode's White_Space.
unfoldable pub is_space : ℕ → Bool
is_space c =
    (leb 9 c && leb c 13)
    || c == 32
    || c == 0x85
    || c == 0xa0
    || c == 0x1680
    || (leb 0x2000 c && leb c 0x200a)
    || c == 0x2028
    || c == 0x2029
    || c == 0x202f
    || c == 0x205f
    || c == 0x3000

unfoldable pub trim_left : String → String
unfolding is_space
trim_left String.[] = String.[]
trim_left (String.◌∷◌ c s) =
    let rest = trim_left s in if is_space (code c) then rest else String.◌∷◌ c s

-- `c` in front of a trimmed rest: a space is dropped where nothing follows it.
unfoldable pub keep_front : Char → String → String
unfolding is_space
keep_front c String.[] = if is_space (code c) then String.[] else String.◌∷◌ c String.[]
keep_front c (String.◌∷◌ d s) = String.◌∷◌ c (String.◌∷◌ d s)

unfoldable pub trim_right : String → String
unfolding keep_front
trim_right String.[] = String.[]
trim_right (String.◌∷◌ c s) = keep_front c (trim_right s)

unfoldable pub trim_space : String → String
unfolding trim_left trim_right
trim_space s = trim_right (trim_left s)

unfoldable pub digit_text : ℕ → String
digit_text d =
    if d == 0
    then "0"
    else if d == 1
    then "1"
    else if d == 2
    then "2"
    else if d == 3
    then "3"
    else if d == 4
    then "4"
    else if d == 5
    then "5"
    else if d == 6
    then "6"
    else if d == 7
    then "7"
    else if d == 8
    then "8"
    else "9"

-- Each round takes one digit off, so `n` rounds are enough after the first.
unfoldable pub decimal_rounds : ℕ → ℕ → String
decimal_rounds zero n = digit_text (n % 10)
decimal_rounds (suc fuel) n =
    let front = decimal_rounds fuel (n / 10) in
    if ltb n 10 then digit_text n else concat front (digit_text (n % 10))

-- `fmt.Sprint` of an int.
unfoldable pub sprint_int : ℤ → String
unfolding decimal_rounds digit_text
sprint_int (pos n) = decimal_rounds n n
sprint_int (negsuc n) = concat "-" (decimal_rounds (suc n) (suc n))

-- The bytes of a code point, and of a text, in UTF-8.
abbrev width : ℕ → ℕ
width c = if ltb c 0x80 then 1 else if ltb c 0x800 then 2 else if ltb c 0x10000 then 3 else 4

unfoldable pub byte_count : List ℕ → ℕ
byte_count [] = 0
byte_count (c ∷ cs) = width c + byte_count cs

-- `len` of a Go string.
unfoldable pub byte_length : String → ℕ
unfolding byte_count
byte_length s = byte_count (codes s)
