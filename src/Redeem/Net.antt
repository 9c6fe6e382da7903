-- ===== src/Redeem/Net.antt =====
-- The fee of a redemption and the unwind that it wants (`net_of_fee` and `check_unwind` of
-- programs/poyz/src/instructions/redeem.rs) in exact arithmetic.
use plott.Common.{ℕ, ◌+◌, ◌-◌, ◌*◌, ◌≤◌, ◌<◌, ◌≡◌, ok, arith, Result-cases, inl, inr}
use plott.Math.{mul_bps_ceil, mul_bps_floor}
use plott.Math.Bps.{mul_bps_ceil_bounds, mul_bps_floor_bounds}
use plott.State.{Config}
use plott.Redeem.{Redeemed, net_of_fee, check_unwind}

-- The fee and the net add up to the amount, and the fee is rounded up.
pub net_of_fee_bounds :
    (config : Config) (amount : ℕ) (r : Redeemed)
    → net_of_fee config amount ≡ ok r
    → (r.net + r.fee ≡ amount) × (amount * config.redeem_fee_bps ≤ r.fee * 10_000)
unfolding net_of_fee
net_of_fee_bounds config amount r h =
    elim (Result-cases (mul_bps_ceil amount config.redeem_fee_bps)) [
      | inl (fee, e) ↦ ground (arith, mul_bps_ceil_bounds amount config.redeem_fee_bps fee e)
      | inr (f, e) ↦ ground arith
    ]

-- An unwind that passes is at least the redeemed amount less the slippage band, to the unit.
pub check_unwind_bounds :
    (config : Config) (amount unwound : ℕ)
    → check_unwind config amount unwound ≡ ok tt
    → (config.max_hedge_slippage_bps ≤ 10_000)
      × (amount * (10_000 - config.max_hedge_slippage_bps) < (unwound + 1) * 10_000)
unfolding check_unwind
check_unwind_bounds config amount unwound h =
    elim (Result-cases (mul_bps_floor amount (10_000 - config.max_hedge_slippage_bps))) [
      | inl (low, e) ↦
          ground (arith, mul_bps_floor_bounds amount (10_000 - config.max_hedge_slippage_bps) low e)
      | inr (f, e) ↦ ground arith
    ]
