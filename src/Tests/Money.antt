-- ===== src/Tests/Money.antt =====
-- Amounts as texts: what `ParseMoney` accepts, and `String`.
use go_odtbank.Base.{
  pos, negsuc, ◌≡◌, refl, trim_space, sprint_int, add64, sub64, wrap64, ◌+ℤ◌, ◌-ℤ◌,
}
use go_odtbank.Domain.Error.{ok, err, invalid_money}
use go_odtbank.Policy.{mul64, div64}
use go_odtbank.Domain.Money.{parse_money, money_text}

parse_plain : parse_money " -12.5" ≡ ok (negsuc 1249)
unfolding parse_money trim_space div64 sub64 wrap64 ◌-ℤ◌ add64 ◌+ℤ◌ mul64
parse_plain = refl

-- A sign inside the fraction is read.
parse_inner_sign : parse_money "5.+5" ≡ ok (pos 505)
unfolding parse_money trim_space div64 sub64 wrap64 ◌-ℤ◌ add64 ◌+ℤ◌ mul64
parse_inner_sign = refl

-- So is a second sign in front, and the bound on the whole part does not see it.
parse_second_sign : parse_money "--5" ≡ ok (pos 500)
unfolding parse_money trim_space div64 sub64 wrap64 ◌-ℤ◌ add64 ◌+ℤ◌ mul64
parse_second_sign = refl

parse_wrapped : parse_money "--200000000000000000" ≡ ok (pos 1553255926290448384)
unfolding parse_money trim_space div64 sub64 wrap64 ◌-ℤ◌ add64 ◌+ℤ◌ mul64
parse_wrapped = refl

parse_precise : parse_money "1.234" ≡ err invalid_money
unfolding parse_money trim_space div64 sub64 wrap64 ◌-ℤ◌ add64 ◌+ℤ◌ mul64
parse_precise = refl

text_plain : money_text (negsuc 1249) ≡ "-12.50"
unfolding money_text sprint_int div64 sub64 wrap64 ◌-ℤ◌
text_plain = refl
