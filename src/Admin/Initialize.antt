-- ===== src/Admin/Initialize.antt =====
-- `initialize` (programs/poyz/src/instructions/admin.rs).
use plott.Common.{
  Bool, true, false, not, ◌&&◌, ◌==◌, leb, Option, none, some, Result, ok, ◌>>◌, require,
  unauthorized, token_program_mismatch, invalid_decimals, invalid_mint_authority,
  freeze_authority_set,
}
use plott.Common.Int.{pos}
use plott.State.{Config}
use plott.State.Keys.{Pubkey, default_key, zero_hash}
use plott.State.Limits.{max_mint_decimals}
use plott.State.Venues.{venue_none}
use plott.Runtime.{Runtime, Clock, Done, MintAccount}
use plott.Oracle.{validate_oracle_account}
use plott.Events.Admin.{ProtocolInitialized}
use plott.Admin.Params.{InitializeParams, validate_config}
use plott.Admin.Accounts.{InitializeCtx}

-- The config that `initialize` writes.
unfoldable pub initial_config :
    InitializeCtx → InitializeParams → MintAccount → MintAccount → MintAccount → Config
initial_config ctx params collateral synthetic bond = record {
  authority = ctx.authority;
  pending_authority = default_key;
  guardian = params.guardian;
  collateral_mint = ctx.collateral_mint;
  synthetic_mint = ctx.synthetic_mint;
  bond_mint = ctx.bond_mint;
  oracle = ctx.oracle.key;
  token_program = ctx.token_program;
  feed_id = params.feed_id;
  last_proof_hash = zero_hash;
  acc_funding_per_share = 0;
  total_collateral = 0;
  pending_collateral = 0;
  total_synthetic = 0;
  pending_redeem_synthetic = 0;
  hedged_notional = 0;
  total_staked = 0;
  staker_funding_balance = 0;
  buffer_balance = 0;
  bonded_total = 0;
  slashed_total = 0;
  min_keeper_bond = params.min_keeper_bond;
  max_synthetic_supply = params.max_synthetic_supply;
  rebalance_count = 0;
  last_proof_slot = 0;
  negative_funding_since = pos 0;
  last_settle_at = pos 0;
  venue_state_at = pos 0;
  venue_capacity_notional = 0;
  max_reportable_capacity_notional = params.max_reportable_capacity_notional;
  max_price_age_sec = params.max_price_age_sec;
  request_ttl_sec = params.request_ttl_sec;
  min_settlement_delay_sec = params.min_settlement_delay_sec;
  unbond_cooldown_sec = params.unbond_cooldown_sec;
  buffer_unlock_delay_sec = params.buffer_unlock_delay_sec;
  unstake_cooldown_sec = params.unstake_cooldown_sec;
  max_venue_state_age_sec = params.max_venue_state_age_sec;
  keeper_count = 0;
  last_net_carry_bps = pos 0;
  min_net_carry_bps = params.min_net_carry_bps;
  max_conf_bps = params.max_conf_bps;
  collateral_ratio_bps = params.collateral_ratio_bps;
  mint_fee_bps = params.mint_fee_bps;
  redeem_fee_bps = params.redeem_fee_bps;
  delta_band_bps = params.delta_band_bps;
  delta_exit_bps = params.delta_exit_bps;
  delta_hard_bps = params.delta_hard_bps;
  max_hedge_slippage_bps = params.max_hedge_slippage_bps;
  buffer_share_bps = params.buffer_share_bps;
  buffer_max_draw_bps = params.buffer_max_draw_bps;
  max_supply_vs_capacity_bps = params.max_supply_vs_capacity_bps;
  collateral_decimals = collateral.decimals;
  synthetic_decimals = synthetic.decimals;
  bond_decimals = bond.decimals;
  mint_paused = true;
  redeem_paused = true;
  vault_flags = 0;
  venue_flags = params.venue_flags;
  last_venue_id = venue_none;
}

abbrev is_key : Option Pubkey → Pubkey → Bool
is_key none k = false
is_key (some a) k = a == k

abbrev is_none : {A : Type 0} → Option A → Bool
is_none none = true
is_none (some a) = false

module _ {T : Type 0} (rt : Runtime T) (tokens : T) (clock : Clock) where
  unfoldable pub initialize :
      InitializeCtx → InitializeParams → Result (Done T (Unit {0}) ProtocolInitialized)
  unfolding initial_config validate_config
  initialize ctx params = do
    let collateral = rt.mint_account tokens ctx.collateral_mint
    let synthetic = rt.mint_account tokens ctx.synthetic_mint
    let bond = rt.mint_account tokens ctx.bond_mint
    require (collateral.owner == ctx.token_program) token_program_mismatch
    require (synthetic.owner == ctx.token_program) token_program_mismatch
    require (bond.owner == ctx.token_program) token_program_mismatch
    require
        (leb collateral.decimals max_mint_decimals
          && leb synthetic.decimals max_mint_decimals
          && leb bond.decimals max_mint_decimals)
        invalid_decimals
    require (is_key synthetic.mint_authority rt.config_key) invalid_mint_authority
    require (is_none synthetic.freeze_authority) freeze_authority_set
    validate_oracle_account rt ctx.oracle params.feed_id
    require (not (params.guardian == default_key)) unauthorized
    let config = initial_config ctx params collateral synthetic bond
    validate_config config
    ok (record {
      config = config;
      account = tt;
      tokens = tokens;
      event = record {
        config = rt.config_key;
        authority = config.authority;
        collateral_mint = config.collateral_mint;
        synthetic_mint = config.synthetic_mint;
        bond_mint = config.bond_mint;
        oracle = config.oracle;
        feed_id = config.feed_id;
        collateral_ratio_bps = config.collateral_ratio_bps;
        delta_band_bps = config.delta_band_bps;
        min_keeper_bond = config.min_keeper_bond;
      };
    })
