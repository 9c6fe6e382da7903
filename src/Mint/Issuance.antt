-- ===== src/Mint/Issuance.antt =====
-- The amounts and gates of programs/poyz/src/instructions/mint.rs that move nothing: the issued amount,
-- the fill bounds, the supply ceiling and the issuance gates.
use plott.Common.{ℕ, ◌+◌, ◌-◌, ◌*◌, ◌≤◌, ◌<◌, ◌≡◌, inl, inr, ok, arith, Result-cases}
use plott.Math.{mul_bps_floor, mul_bps_ceil, div_bps_floor}
use plott.Math.Bps.{div_bps_floor_bounds, mul_bps_floor_bounds, mul_bps_ceil_bounds}
use plott.State.{Config}
use plott.Mint.Gates.{supply_ceiling, check_fill, Issue, issue_amount}

-- The net issue and the fee are the gross issue, which the collateral ratio bounds.
pub issue_amount_bounds :
    (config : Config) (notional : ℕ) (issue : Issue)
    → issue_amount config notional ≡ ok issue
    → (0 < issue.net)
      × ((issue.net + issue.fee) * config.collateral_ratio_bps ≤ notional * 10_000)
      × ((issue.net + issue.fee) * config.mint_fee_bps ≤ issue.fee * 10_000)
unfolding issue_amount
issue_amount_bounds config notional issue h =
    elim (Result-cases (div_bps_floor notional config.collateral_ratio_bps)) [
      | inl (gross, e) ↦ elim (Result-cases (mul_bps_ceil gross config.mint_fee_bps)) [
        | inl (fee, k) ↦ ground (
          arith,
          div_bps_floor_bounds notional config.collateral_ratio_bps gross e,
          mul_bps_ceil_bounds gross config.mint_fee_bps fee k,
        )
        | inr (f, k) ↦ ground arith
      ]
      | inr (f, e) ↦ ground arith
    ]

-- At a ratio of 1.00x or more, no more is issued than the notional is worth.
pub issue_amount-le :
    (config : Config) (notional : ℕ) (issue : Issue)
    → issue_amount config notional ≡ ok issue
    → 10_000 ≤ config.collateral_ratio_bps
    → issue.net + issue.fee ≤ notional
issue_amount-le config notional issue h k =
    let b = issue_amount_bounds config notional issue h in
    let m : (issue.net + issue.fee) * 10_000
        ≤ (issue.net + issue.fee) * config.collateral_ratio_bps =
      grind arith in
    omega arith

-- A fill that passes lies within the slippage band round the notional.
pub check_fill_bounds :
    (config : Config) (notional filled : ℕ)
    → check_fill config notional filled ≡ ok tt
    → (config.max_hedge_slippage_bps ≤ 10_000)
      × (notional * (10_000 - config.max_hedge_slippage_bps) < (filled + 1) * 10_000)
      × (filled * 10_000 < notional * (10_000 + config.max_hedge_slippage_bps) + 10_000)
unfolding check_fill
check_fill_bounds config notional filled h =
    elim (Result-cases (mul_bps_floor notional (10_000 - config.max_hedge_slippage_bps))) [
      | inl (low, e) ↦
          elim (Result-cases (mul_bps_ceil notional (10_000 + config.max_hedge_slippage_bps))) [
            | inl (high, k) ↦ ground (
              arith,
              mul_bps_floor_bounds notional (10_000 - config.max_hedge_slippage_bps) low e,
              mul_bps_ceil_bounds notional (10_000 + config.max_hedge_slippage_bps) high k,
            )
            | inr (f, k) ↦ ground arith
          ]
      | inr (f, e) ↦ ground arith
    ]

pub supply_ceiling_bounds :
    (config : Config) (ceiling : ℕ)
    → supply_ceiling config ≡ ok ceiling
    → (ceiling ≤ config.max_synthetic_supply)
      × (ceiling * 10_000 ≤ config.venue_capacity_notional * config.max_supply_vs_capacity_bps)
unfolding supply_ceiling
supply_ceiling_bounds config ceiling h =
    elim (Result-cases
      (mul_bps_floor config.venue_capacity_notional config.max_supply_vs_capacity_bps)) [
        | inl (v, e) ↦ ground (
          arith,
          mul_bps_floor_bounds config.venue_capacity_notional config.max_supply_vs_capacity_bps v e,
        )
        | inr (f, e) ↦ ground arith
      ]
