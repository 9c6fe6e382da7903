-- ===== src/Events/Admin.antt =====
-- The events of programs/poyz/src/events.rs about the lifecycle and the configuration.
use plott.Common.{ℕ, Bool}
use plott.Common.Int.{ℤ}
use plott.State.Keys.{Pubkey, Hash}

pub record ProtocolInitialized : Type 0 where
  pub config : Pubkey
  pub authority : Pubkey
  pub collateral_mint : Pubkey
  pub synthetic_mint : Pubkey
  pub bond_mint : Pubkey
  pub oracle : Pubkey
  pub feed_id : Hash
  pub collateral_ratio_bps : ℕ
  pub delta_band_bps : ℕ
  pub min_keeper_bond : ℕ

pub record VaultGroupInitialized : Type 0 where
  pub config : Pubkey
  pub flag : ℕ
  pub vault_flags : ℕ

pub record ParamsUpdated : Type 0 where
  pub config : Pubkey
  pub authority : Pubkey
  pub max_price_age_sec : ℕ
  pub max_conf_bps : ℕ
  pub collateral_ratio_bps : ℕ
  pub mint_fee_bps : ℕ
  pub redeem_fee_bps : ℕ
  pub delta_band_bps : ℕ
  pub delta_exit_bps : ℕ
  pub delta_hard_bps : ℕ
  pub max_hedge_slippage_bps : ℕ
  pub buffer_share_bps : ℕ
  pub buffer_max_draw_bps : ℕ
  pub min_keeper_bond : ℕ
  pub max_synthetic_supply : ℕ
  pub request_ttl_sec : ℕ
  pub min_settlement_delay_sec : ℕ
  pub unbond_cooldown_sec : ℕ
  pub buffer_unlock_delay_sec : ℕ
  pub unstake_cooldown_sec : ℕ
  pub max_supply_vs_capacity_bps : ℕ
  pub max_venue_state_age_sec : ℕ
  pub min_net_carry_bps : ℤ
  pub max_reportable_capacity_notional : ℕ
  pub venue_flags : ℕ

pub record VenueStateReported : Type 0 where
  pub config : Pubkey
  pub reporter : Pubkey
  pub reporter_is_authority : Bool
  pub venue_id : ℕ
  pub net_carry_bps : ℤ
  pub reported_capacity : ℕ
  pub capacity_notional : ℕ
  pub negative_funding_since : ℤ
  pub slot : ℕ
  pub timestamp : ℤ

pub record PauseChanged : Type 0 where
  pub config : Pubkey
  pub signer : Pubkey
  pub mint_paused : Bool
  pub redeem_paused : Bool

pub record GuardianChanged : Type 0 where
  pub config : Pubkey
  pub authority : Pubkey
  pub previous_guardian : Pubkey
  pub guardian : Pubkey

pub record OracleUpdated : Type 0 where
  pub config : Pubkey
  pub authority : Pubkey
  pub previous_oracle : Pubkey
  pub oracle : Pubkey
  pub feed_id : Hash

pub record AuthorityTransferProposed : Type 0 where
  pub config : Pubkey
  pub current_authority : Pubkey
  pub pending_authority : Pubkey

pub record AuthorityTransferred : Type 0 where
  pub config : Pubkey
  pub previous_authority : Pubkey
  pub new_authority : Pubkey
