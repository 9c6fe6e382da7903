-- ===== src/Math/Tests.antt =====
-- Runs of the helpers of programs/poyz/src/math.rs, and the round trip's theorem at one of them.
use plott.Common.{◌≤◌, ◌≡◌, refl, ok}
use plott.Common.Int.{ℤ, pos, negsuc}
use plott.Math.RoundTrip.{notional_to_collateral-collateral_to_notional}
use plott.Math.{
  collateral_to_notional, notional_to_collateral, mul_bps_floor, mul_bps_ceil, delta_bps,
}

-- One unit of collateral at 150.0000003, and back: a unit of 10^-9 is lost to the rounding.
to_notional :
    collateral_to_notional 1_000_000_001 (pos 15_000_000_030) (negsuc 7) 9 6 ≡ ok 150_000_000
unfolding collateral_to_notional plott.Math.decimal_shift plott.Common.Int.◌+ℤ◌
    plott.Common.Int.◌-ℤ◌ plott.Math.scale_down
to_notional = refl

to_collateral :
    notional_to_collateral 150_000_000 (pos 15_000_000_030) (negsuc 7) 9 6 ≡ ok 999_999_998
unfolding notional_to_collateral plott.Math.decimal_shift plott.Common.Int.◌+ℤ◌
    plott.Common.Int.◌-ℤ◌ plott.Math.scale_divided
to_collateral = refl

fee_up : mul_bps_ceil 1 10 ≡ ok 1
unfolding mul_bps_ceil
fee_up = refl

share_down : mul_bps_floor 1 9_990 ≡ ok 0
unfolding mul_bps_floor
share_down = refl

over_hedged : delta_bps 1_500 1_515 ≡ ok (negsuc 99)
unfolding delta_bps plott.Common.Int.◌-ℤ◌ plott.Common.Int.scale_ℤ plott.Common.Int.tdiv
over_hedged = refl

notional_to_collateral-collateral_to_notional_example : 999_999_998 ≤ 1_000_000_001
notional_to_collateral-collateral_to_notional_example =
    notional_to_collateral-collateral_to_notional 1_000_000_001 (pos 15_000_000_030) (negsuc 7) 9 6
      150_000_000 999_999_998 to_notional to_collateral
