-- ===== src/Admin/Params.antt =====
-- The parameters of programs/poyz/src/instructions/admin.rs, how an update is merged, and the bounds
-- that every config meets.
use Prim.Native.Nat.{bit_and}
use plott.Common.{
  ℕ, ◌-◌, not, ◌&&◌, ◌==◌, ltb, leb, Option, none, some, Result, ◌>>◌, require, invalid_price_age,
  invalid_collateral_ratio, invalid_delta_threshold, invalid_bps, zero_amount, venue_not_enabled,
}
use plott.Common.Int.{ℤ}
use plott.State.{Config}
use plott.State.Keys.{Pubkey, Hash}
use plott.State.Limits.{
  max_delta_band_bps, max_price_age_sec_limit, max_fee_bps, min_collateral_ratio_bps,
  max_collateral_ratio_bps,
}
use plott.State.Venues.{venue_flags_mask}

pub record InitializeParams : Type 0 where
  pub feed_id : Hash
  pub guardian : Pubkey
  pub max_price_age_sec : ℕ
  pub max_conf_bps : ℕ
  pub collateral_ratio_bps : ℕ
  pub mint_fee_bps : ℕ
  pub redeem_fee_bps : ℕ
  pub delta_band_bps : ℕ
  pub delta_exit_bps : ℕ
  pub delta_hard_bps : ℕ
  pub max_hedge_slippage_bps : ℕ
  pub buffer_share_bps : ℕ
  pub buffer_max_draw_bps : ℕ
  pub max_supply_vs_capacity_bps : ℕ
  pub min_keeper_bond : ℕ
  pub max_synthetic_supply : ℕ
  pub request_ttl_sec : ℕ
  pub min_settlement_delay_sec : ℕ
  pub unbond_cooldown_sec : ℕ
  pub buffer_unlock_delay_sec : ℕ
  pub unstake_cooldown_sec : ℕ
  pub max_venue_state_age_sec : ℕ
  pub min_net_carry_bps : ℤ
  pub max_reportable_capacity_notional : ℕ
  pub venue_flags : ℕ

pub record UpdateParams : Type 0 where
  pub max_price_age_sec : Option ℕ
  pub max_conf_bps : Option ℕ
  pub collateral_ratio_bps : Option ℕ
  pub mint_fee_bps : Option ℕ
  pub redeem_fee_bps : Option ℕ
  pub delta_band_bps : Option ℕ
  pub delta_exit_bps : Option ℕ
  pub delta_hard_bps : Option ℕ
  pub max_hedge_slippage_bps : Option ℕ
  pub buffer_share_bps : Option ℕ
  pub buffer_max_draw_bps : Option ℕ
  pub max_supply_vs_capacity_bps : Option ℕ
  pub min_keeper_bond : Option ℕ
  pub max_synthetic_supply : Option ℕ
  pub request_ttl_sec : Option ℕ
  pub min_settlement_delay_sec : Option ℕ
  pub unbond_cooldown_sec : Option ℕ
  pub buffer_unlock_delay_sec : Option ℕ
  pub unstake_cooldown_sec : Option ℕ
  pub max_venue_state_age_sec : Option ℕ
  pub min_net_carry_bps : Option ℤ
  pub max_reportable_capacity_notional : Option ℕ
  pub venue_flags : Option ℕ

-- `if let Some(v) = update { field = v; }`
abbrev pub or_keep : {A : Type 0} → Option A → A → A
or_keep none old = old
or_keep (some v) old = v

unfoldable pub merge : UpdateParams → Config → Config
merge params config = record config {
  min_keeper_bond = or_keep params.min_keeper_bond config.min_keeper_bond;
  max_synthetic_supply = or_keep params.max_synthetic_supply config.max_synthetic_supply;
  max_reportable_capacity_notional =
      or_keep params.max_reportable_capacity_notional config.max_reportable_capacity_notional;
  max_price_age_sec = or_keep params.max_price_age_sec config.max_price_age_sec;
  request_ttl_sec = or_keep params.request_ttl_sec config.request_ttl_sec;
  min_settlement_delay_sec =
      or_keep params.min_settlement_delay_sec config.min_settlement_delay_sec;
  unbond_cooldown_sec = or_keep params.unbond_cooldown_sec config.unbond_cooldown_sec;
  buffer_unlock_delay_sec = or_keep params.buffer_unlock_delay_sec config.buffer_unlock_delay_sec;
  unstake_cooldown_sec = or_keep params.unstake_cooldown_sec config.unstake_cooldown_sec;
  max_venue_state_age_sec = or_keep params.max_venue_state_age_sec config.max_venue_state_age_sec;
  min_net_carry_bps = or_keep params.min_net_carry_bps config.min_net_carry_bps;
  max_conf_bps = or_keep params.max_conf_bps config.max_conf_bps;
  collateral_ratio_bps = or_keep params.collateral_ratio_bps config.collateral_ratio_bps;
  mint_fee_bps = or_keep params.mint_fee_bps config.mint_fee_bps;
  redeem_fee_bps = or_keep params.redeem_fee_bps config.redeem_fee_bps;
  delta_band_bps = or_keep params.delta_band_bps config.delta_band_bps;
  delta_exit_bps = or_keep params.delta_exit_bps config.delta_exit_bps;
  delta_hard_bps = or_keep params.delta_hard_bps config.delta_hard_bps;
  max_hedge_slippage_bps = or_keep params.max_hedge_slippage_bps config.max_hedge_slippage_bps;
  buffer_share_bps = or_keep params.buffer_share_bps config.buffer_share_bps;
  buffer_max_draw_bps = or_keep params.buffer_max_draw_bps config.buffer_max_draw_bps;
  max_supply_vs_capacity_bps =
      or_keep params.max_supply_vs_capacity_bps config.max_supply_vs_capacity_bps;
  venue_flags = or_keep params.venue_flags config.venue_flags;
}

unfoldable pub validate_config : Config → Result (Unit {0})
unfolding venue_flags_mask
validate_config config = do
  require (ltb 0 config.max_price_age_sec && leb config.max_price_age_sec max_price_age_sec_limit)
      invalid_price_age
  require
      (leb min_collateral_ratio_bps config.collateral_ratio_bps
        && leb config.collateral_ratio_bps max_collateral_ratio_bps)
      invalid_collateral_ratio
  require (ltb 0 config.delta_band_bps && leb config.delta_band_bps max_delta_band_bps)
      invalid_delta_threshold
  require (ltb 0 config.delta_exit_bps && leb config.delta_exit_bps config.delta_band_bps)
      invalid_delta_threshold
  require
      (leb config.delta_band_bps config.delta_hard_bps
        && leb config.delta_hard_bps max_delta_band_bps)
      invalid_delta_threshold
  require (leb config.mint_fee_bps max_fee_bps) invalid_bps
  require (leb config.redeem_fee_bps max_fee_bps) invalid_bps
  require (ltb 0 config.max_conf_bps && ltb config.max_conf_bps 10_000) invalid_bps
  require (ltb config.max_hedge_slippage_bps 10_000) invalid_bps
  require (leb config.buffer_share_bps 10_000) invalid_bps
  require (ltb 0 config.buffer_max_draw_bps && leb config.buffer_max_draw_bps 10_000) invalid_bps
  require (ltb 0 config.max_supply_vs_capacity_bps && leb config.max_supply_vs_capacity_bps 10_000)
      invalid_bps
  require (ltb 0 config.max_venue_state_age_sec) zero_amount
  require
      (not (config.venue_flags == 0) && bit_and config.venue_flags (255 - venue_flags_mask) == 0)
      venue_not_enabled
  require (ltb 0 config.min_keeper_bond) zero_amount
  require (ltb 0 config.max_synthetic_supply) zero_amount
  require (ltb 0 config.request_ttl_sec) zero_amount
