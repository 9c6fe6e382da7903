-- ===== src/Math/Accumulator.antt =====
-- The funding accumulator: `acc_increment` and `acc_entitlement` of programs/poyz/src/math.rs.
use plott.Common.{ℕ, ◌+◌, ◌*◌, ◌≤◌, ◌<◌, ◌≡◌, ok, arith}
use plott.Common.Order.{div-mul-le, lt-suc_div-mul}
use plott.Math.{acc_scale, acc_increment, acc_entitlement}

-- An increment hands out no more than the settled amount.
pub acc_increment_bounds :
    (amount staked inc : ℕ)
    → acc_increment amount staked ≡ ok inc
    → (inc * staked ≤ amount * acc_scale) × (amount * acc_scale < (inc + 1) * staked)
unfolding acc_increment
acc_increment_bounds amount staked inc h =
    ground
      (arith, div-mul-le (amount * acc_scale) staked, lt-suc_div-mul (amount * acc_scale) staked)

pub acc_entitlement_bounds :
    (stake acc e : ℕ)
    → acc_entitlement stake acc ≡ ok e
    → (e * acc_scale ≤ stake * acc) × (stake * acc < (e + 1) * acc_scale)
unfolding acc_entitlement
acc_entitlement_bounds stake acc e h = ground arith
