-- ===== src/Mint/Gates.antt =====
-- The preconditions and amounts of programs/poyz/src/instructions/mint.rs that do not move anything:
-- the supply ceiling, the issuance gates, the fill bounds and the amount that is issued.
use plott.Common.{
  ℕ, ◌+◌, ◌-◌, min, not, ltb, leb, if◌then◌else◌, Result, ok, err, ◌>>=◌, ◌>>◌, require, poyz,
  zero_amount, hedge_fill_too_small, hedge_fill_too_large, invalid_bps, venue_state_missing,
  venue_state_from_future, venue_state_stale, carry_below_floor, delta_outside_hard_band,
}
use plott.Common.Int.{ℤ, pos, leb_ℤ, eqb_ℤ, unsigned_abs}
use plott.Common.Checked.{checked_sub, checked_sub_ℤ}
use plott.Math.{delta_bps, div_bps_floor, mul_bps_ceil, mul_bps_floor}
use plott.Valuation.{config_notional}
use plott.State.{Config}
use plott.Pyth.{OraclePrice}

unfoldable pub supply_ceiling : Config → Result ℕ
supply_ceiling config = do
  venue_ceiling ← mul_bps_floor config.venue_capacity_notional config.max_supply_vs_capacity_bps
  ok (min config.max_synthetic_supply venue_ceiling)

-- The hard band, where the book is not empty.
unfoldable pub within_hard_band : Config → ℕ → Result (Unit {0})
within_hard_band config book_notional = do
  delta ← delta_bps book_notional config.hedged_notional
  require (leb (unsigned_abs delta) config.delta_hard_bps) delta_outside_hard_band

unfoldable pub check_hard_band : Config → OraclePrice → Result (Unit {0})
unfolding within_hard_band
check_hard_band config price = do
  book_notional ← config_notional config price config.total_collateral
  if ltb 0 book_notional then within_hard_band config book_notional else ok tt

unfoldable pub check_issuance_gates : Config → ℤ → OraclePrice → Result (Unit {0})
unfolding check_hard_band
check_issuance_gates config now price = do
  require (not (eqb_ℤ config.venue_state_at (pos 0))) venue_state_missing
  age ← checked_sub_ℤ 63 now config.venue_state_at
  require (leb_ℤ (pos 0) age) venue_state_from_future
  require (leb_ℤ age (pos config.max_venue_state_age_sec)) venue_state_stale
  require (leb_ℤ config.min_net_carry_bps config.last_net_carry_bps) carry_below_floor
  if ltb 0 config.total_collateral then check_hard_band config price else ok tt

-- What a confirmation issues for a notional: gross, less the fee.
pub record Issue : Type 0 where
  pub net : ℕ
  pub fee : ℕ

unfoldable pub issue_amount : Config → ℕ → Result Issue
issue_amount config effective_notional = do
  gross ← div_bps_floor effective_notional config.collateral_ratio_bps
  require (ltb 0 gross) zero_amount
  fee ← mul_bps_ceil gross config.mint_fee_bps
  net ← checked_sub gross fee
  require (ltb 0 net) zero_amount
  ok (record { net = net; fee = fee })

-- The reported fill against the notional, from below and from above. The slippage is a u16, so that
-- `10_000 + slippage` may leave the range.
unfoldable pub check_fill : Config → ℕ → ℕ → Result (Unit {0})
check_fill config effective_notional filled_notional = do
  low ←
      if leb config.max_hedge_slippage_bps 10_000
      then ok (10_000 - config.max_hedge_slippage_bps)
      else err (poyz invalid_bps)
  required_fill ← mul_bps_floor effective_notional low
  require (leb required_fill filled_notional) hedge_fill_too_small
  high ←
      if ltb (10_000 + config.max_hedge_slippage_bps) 65_536
      then ok (10_000 + config.max_hedge_slippage_bps)
      else err (poyz invalid_bps)
  max_fill ← mul_bps_ceil effective_notional high
  require (leb filled_notional max_fill) hedge_fill_too_large
