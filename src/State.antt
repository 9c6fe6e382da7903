-- ===== src/State.antt =====
-- The accounts of the program (programs/poyz/src/state.rs): the global configuration, keepers, requests,
-- proofs and stake positions, with the code's constants and venue registry in the child modules.
-- A field of an unsigned type is a native number and one of a signed type an integer, each within
-- the range of its type. `bump` and `reserved` of each account, which no handler reads but to derive
-- the address that Anchor has checked, are left out.
pub mod Keys
pub mod Limits
pub mod Venues
pub mod Ledger
pub mod Settings
pub mod Addresses
mod Tests
use plott.Common.{ℕ, Bool, ◌==◌}
use plott.Common.Int.{ℤ}
use Keys.{Pubkey, Hash}
use Limits.{vault_flags_all}
use Venues.{venue_enabled_in}

pub record Config : Type 0 where
  pub authority : Pubkey
  pub pending_authority : Pubkey
  pub guardian : Pubkey
  pub collateral_mint : Pubkey
  pub synthetic_mint : Pubkey
  pub bond_mint : Pubkey
  pub oracle : Pubkey
  pub token_program : Pubkey
  pub feed_id : Hash
  pub last_proof_hash : Hash
  pub acc_funding_per_share : ℕ
  pub total_collateral : ℕ
  pub pending_collateral : ℕ
  pub total_synthetic : ℕ
  pub pending_redeem_synthetic : ℕ
  pub hedged_notional : ℕ
  pub total_staked : ℕ
  pub staker_funding_balance : ℕ
  pub buffer_balance : ℕ
  pub bonded_total : ℕ
  pub slashed_total : ℕ
  pub min_keeper_bond : ℕ
  pub max_synthetic_supply : ℕ
  pub rebalance_count : ℕ
  pub last_proof_slot : ℕ
  pub negative_funding_since : ℤ
  pub last_settle_at : ℤ
  pub venue_state_at : ℤ
  pub venue_capacity_notional : ℕ
  pub max_reportable_capacity_notional : ℕ
  pub max_price_age_sec : ℕ
  pub request_ttl_sec : ℕ
  pub min_settlement_delay_sec : ℕ
  pub unbond_cooldown_sec : ℕ
  pub buffer_unlock_delay_sec : ℕ
  pub unstake_cooldown_sec : ℕ
  pub max_venue_state_age_sec : ℕ
  pub keeper_count : ℕ
  pub last_net_carry_bps : ℤ
  pub min_net_carry_bps : ℤ
  pub max_conf_bps : ℕ
  pub collateral_ratio_bps : ℕ
  pub mint_fee_bps : ℕ
  pub redeem_fee_bps : ℕ
  pub delta_band_bps : ℕ
  pub delta_exit_bps : ℕ
  pub delta_hard_bps : ℕ
  pub max_hedge_slippage_bps : ℕ
  pub buffer_share_bps : ℕ
  pub buffer_max_draw_bps : ℕ
  pub max_supply_vs_capacity_bps : ℕ
  pub collateral_decimals : ℕ
  pub synthetic_decimals : ℕ
  pub bond_decimals : ℕ
  pub mint_paused : Bool
  pub redeem_paused : Bool
  pub vault_flags : ℕ
  pub venue_flags : ℕ
  pub last_venue_id : ℕ

pub record Keeper : Type 0 where
  pub keeper : Pubkey
  pub bonded : ℕ
  pub slashed : ℕ
  pub proofs_committed : ℕ
  pub registered_at : ℤ
  pub last_proof_at : ℤ
  pub last_proof_slot : ℕ
  pub last_bond_at : ℤ
  pub active : Bool

pub record MintRequest : Type 0 where
  pub user : Pubkey
  pub nonce : ℕ
  pub collateral_amount : ℕ
  pub quoted_notional : ℕ
  pub min_synthetic_out : ℕ
  pub quoted_price : ℤ
  pub created_at : ℤ
  pub deadline : ℤ
  pub quoted_slot : ℕ
  pub quoted_expo : ℤ

pub record RedeemRequest : Type 0 where
  pub user : Pubkey
  pub nonce : ℕ
  pub synthetic_amount : ℕ
  pub quoted_collateral : ℕ
  pub min_collateral_out : ℕ
  pub quoted_price : ℤ
  pub created_at : ℤ
  pub deadline : ℤ
  pub quoted_slot : ℕ
  pub quoted_expo : ℤ

pub record RebalanceProof : Type 0 where
  pub keeper : Pubkey
  pub venues_hash : Hash
  pub prev_hash : Hash
  pub this_hash : Hash
  pub sequence : ℕ
  pub hedged_notional : ℕ
  pub collateral_notional : ℕ
  pub oracle_publish_time : ℤ
  pub oracle_posted_slot : ℕ
  pub slot : ℕ
  pub timestamp : ℤ
  pub oracle_price : ℤ
  pub oracle_conf : ℕ
  pub delta_bps_before : ℤ
  pub delta_bps_after : ℤ
  pub oracle_expo : ℤ
  pub venue_id : ℕ

pub record StakePosition : Type 0 where
  pub owner : Pubkey
  pub reward_debt : ℕ
  pub amount : ℕ
  pub unclaimed : ℕ
  pub claimed_total : ℕ
  pub last_update : ℤ
  pub cooldown_end : ℤ
  pub pending_unstake : ℕ

-- `Config::vaults_ready`
unfoldable pub vaults_ready : Config → Bool
vaults_ready config = config.vault_flags == vault_flags_all

-- `Config::venue_enabled`
unfoldable pub venue_enabled : Config → ℕ → Bool
unfolding venue_enabled_in
venue_enabled config venue_id = venue_enabled_in config.venue_flags venue_id
