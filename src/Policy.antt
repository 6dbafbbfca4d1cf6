-- ===== src/Policy.antt =====
-- internal/policy/policies.go: the fee policies and the service hours.
use go_odtbank.Base.{
  ℕ, ◌+◌, ◌*◌, ◌/◌, Bool, ℤ, pos, negsuc, suc, ◌-ℤ◌, pos_part, neg_part, wrap64, add64, sub_ℕ,
}
use go_odtbank.Domain.Event.{Money, Time}

-- int64 multiplication.
unfoldable pub mul64 : ℤ → ℤ → ℤ
mul64 a b = wrap64 (
    sub_ℕ (pos_part a * pos_part b + neg_part a * neg_part b)
      (pos_part a * neg_part b + neg_part a * pos_part b))

-- Go's integer division by a positive constant: it truncates towards zero.
unfoldable pub div64 : ℤ → ℕ → ℤ
div64 (pos n) k = pos (n / k)
div64 (negsuc n) k = pos 0 -ℤ pos (suc n / k)

-- `FlatFeePolicy`
unfoldable pub flat_fee : Money → Money → Money
flat_fee fee amount = fee

-- `ZeroFeePolicy`
unfoldable pub zero_fee : Money → Money
zero_fee amount = pos 0

-- `VariableFeePolicy`
unfoldable pub variable_fee : ℤ → Money → Money
unfolding mul64 div64
variable_fee basis_points amount = div64 (add64 (mul64 amount basis_points) (pos 5000)) 10000

-- `DefaultTimeService`
unfoldable pub is_service_available : Bool → Time → Bool
is_service_available available t = available
