-- ===== src/Math/Bps.antt =====
-- Fees and shares in basis points: `mul_bps_floor`, `mul_bps_ceil` and `div_bps_floor` of
-- programs/poyz/src/math.rs, against exact rational arithmetic.
use plott.Common.{ℕ, ◌+◌, ◌-◌, ◌*◌, ◌/◌, ◌≤◌, ◌<◌, ◌≡◌, ◌^◌, ap, ok, arith}
use plott.Common.Order.{div-mul-le, lt-suc_div-mul}
use plott.Math.{mul_bps_floor, mul_bps_ceil, div_bps_floor}

pub mul_bps_floor_bounds :
    (amount bps : ℕ) (out : ℕ)
    → mul_bps_floor amount bps ≡ ok out
    → (out * 10_000 ≤ amount * bps) × (amount * bps < (out + 1) * 10_000)
unfolding mul_bps_floor
mul_bps_floor_bounds amount bps out h = ground arith

pub mul_bps_ceil_bounds :
    (amount bps : ℕ) (out : ℕ)
    → mul_bps_ceil amount bps ≡ ok out
    → (amount * bps ≤ out * 10_000) × (out * 10_000 < amount * bps + 10_000)
unfolding mul_bps_ceil
mul_bps_ceil_bounds amount bps out h = ground arith

pub div_bps_floor_bounds :
    (amount ratio : ℕ) (out : ℕ)
    → div_bps_floor amount ratio ≡ ok out
    → (out * ratio ≤ amount * 10_000) × (amount * 10_000 < (out + 1) * ratio)
unfolding div_bps_floor
div_bps_floor_bounds amount ratio out h =
    ground (arith, div-mul-le (amount * 10_000) ratio, lt-suc_div-mul (amount * 10_000) ratio)

-- At a ratio of 1.00x or more the result is at most the amount.
pub div_bps_floor-le :
    (amount ratio : ℕ) (out : ℕ)
    → div_bps_floor amount ratio ≡ ok out
    → 10_000 ≤ ratio
    → out ≤ amount
div_bps_floor-le amount ratio out h k =
    let b = div_bps_floor_bounds amount ratio out h in
    let m : out * 10_000 ≤ out * ratio = grind arith in omega arith

-- A share of a u64 amount, in basis points up to 100 %, never overflows in the products.
mul_bps-le : (amount bps : ℕ) → bps ≤ 10_000 → amount * bps ≤ amount * 10_000
mul_bps-le amount bps k = grind arith

pub mul_bps_floor_total :
    (amount bps : ℕ)
    → amount < 2 ^ 64
    → bps ≤ 10_000
    → mul_bps_floor amount bps ≡ ok (amount * bps / 10_000)
unfolding mul_bps_floor
mul_bps_floor_total amount bps h k = ground (arith, mul_bps-le amount bps)

pub mul_bps_ceil_total :
    (amount bps : ℕ)
    → amount < 2 ^ 64
    → bps ≤ 10_000
    → mul_bps_ceil amount bps ≡ ok ((amount * bps + 9_999) / 10_000)
unfolding mul_bps_ceil
mul_bps_ceil_total amount bps h k = ground (arith, mul_bps-le amount bps)

-- For every u64 amount and every rate of at most 100 %, both roundings succeed, and the fee rounded
-- up and the remaining share rounded down add up to the amount: no unit is lost or made up.
pub mul_bps_ceil-mul_bps_floor :
    (amount bps : ℕ)
    → amount < 2 ^ 64
    → bps ≤ 10_000
    → (fee rest : ℕ) × (mul_bps_ceil amount bps ≡ ok fee)
      × (mul_bps_floor amount (10_000 - bps) ≡ ok rest)
      × (fee + rest ≡ amount)
mul_bps_ceil-mul_bps_floor amount bps h k =
    let parts : bps + (10_000 - bps) ≡ 10_000 = omega arith in
    let split : amount * (bps + (10_000 - bps)) ≡ amount * 10_000 =
      ap (λ (t : ℕ). amount * t) parts in
    (
      (amount * bps + 9_999) / 10_000,
      amount * (10_000 - bps) / 10_000,
      mul_bps_ceil_total amount bps h k,
      mul_bps_floor_total amount (10_000 - bps) h (omega arith),
      omega arith,
    )
