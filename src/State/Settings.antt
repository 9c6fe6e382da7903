-- ===== src/State/Settings.antt =====
-- The part of the config account that administration sets (programs/poyz/src/state.rs): roles, parameters,
-- pause flags and the flags of the vaults and venues.
use plott.Common.{ℕ, Bool}
use plott.Common.Int.{ℤ}
use plott.State.Keys.{Pubkey, Hash}
use plott.State.{Config}

pub record Settings : Type 0 where
  pub authority : Pubkey
  pub pending_authority : Pubkey
  pub guardian : Pubkey
  pub oracle : Pubkey
  pub token_program : Pubkey
  pub feed_id : Hash
  pub min_keeper_bond : ℕ
  pub max_synthetic_supply : ℕ
  pub max_reportable_capacity_notional : ℕ
  pub max_price_age_sec : ℕ
  pub request_ttl_sec : ℕ
  pub min_settlement_delay_sec : ℕ
  pub unbond_cooldown_sec : ℕ
  pub buffer_unlock_delay_sec : ℕ
  pub unstake_cooldown_sec : ℕ
  pub max_venue_state_age_sec : ℕ
  pub min_net_carry_bps : ℤ
  pub max_conf_bps : ℕ
  pub collateral_ratio_bps : ℕ
  pub mint_fee_bps : ℕ
  pub redeem_fee_bps : ℕ
  pub delta_band_bps : ℕ
  pub delta_exit_bps : ℕ
  pub delta_hard_bps : ℕ
  pub max_hedge_slippage_bps : ℕ
  pub buffer_share_bps : ℕ
  pub buffer_max_draw_bps : ℕ
  pub max_supply_vs_capacity_bps : ℕ
  pub collateral_decimals : ℕ
  pub synthetic_decimals : ℕ
  pub bond_decimals : ℕ
  pub mint_paused : Bool
  pub redeem_paused : Bool
  pub vault_flags : ℕ
  pub venue_flags : ℕ

abbrev pub settings_of : Config → Settings
settings_of config = record {
  authority = config.authority;
  pending_authority = config.pending_authority;
  guardian = config.guardian;
  oracle = config.oracle;
  token_program = config.token_program;
  feed_id = config.feed_id;
  min_keeper_bond = config.min_keeper_bond;
  max_synthetic_supply = config.max_synthetic_supply;
  max_reportable_capacity_notional = config.max_reportable_capacity_notional;
  max_price_age_sec = config.max_price_age_sec;
  request_ttl_sec = config.request_ttl_sec;
  min_settlement_delay_sec = config.min_settlement_delay_sec;
  unbond_cooldown_sec = config.unbond_cooldown_sec;
  buffer_unlock_delay_sec = config.buffer_unlock_delay_sec;
  unstake_cooldown_sec = config.unstake_cooldown_sec;
  max_venue_state_age_sec = config.max_venue_state_age_sec;
  min_net_carry_bps = config.min_net_carry_bps;
  max_conf_bps = config.max_conf_bps;
  collateral_ratio_bps = config.collateral_ratio_bps;
  mint_fee_bps = config.mint_fee_bps;
  redeem_fee_bps = config.redeem_fee_bps;
  delta_band_bps = config.delta_band_bps;
  delta_exit_bps = config.delta_exit_bps;
  delta_hard_bps = config.delta_hard_bps;
  max_hedge_slippage_bps = config.max_hedge_slippage_bps;
  buffer_share_bps = config.buffer_share_bps;
  buffer_max_draw_bps = config.buffer_max_draw_bps;
  max_supply_vs_capacity_bps = config.max_supply_vs_capacity_bps;
  collateral_decimals = config.collateral_decimals;
  synthetic_decimals = config.synthetic_decimals;
  bond_decimals = config.bond_decimals;
  mint_paused = config.mint_paused;
  redeem_paused = config.redeem_paused;
  vault_flags = config.vault_flags;
  venue_flags = config.venue_flags;
}
