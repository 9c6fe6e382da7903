-- ===== src/Admin/Validated.antt =====
-- The bounds that every config meets, by `validate_config` of programs/poyz/src/instructions/admin.rs.
use Prim.Native.Nat.{bit_and}
use plott.Common.{◌≤◌, ◌<◌, ◌≡◌, ◌≢◌, refl, true, ok, arith, leb, ◌&&◌, some, none}
use plott.State.{Config}
use plott.State.Ledger.{ledger_of}
use plott.State.Keys.{zero_hash, default_key}
use plott.Runtime.{Runtime, Clock, Done}
use plott.Events.Admin.{ProtocolInitialized, ParamsUpdated}
use plott.Admin.Params.{InitializeParams, UpdateParams, merge, validate_config}
use plott.Admin.Accounts.{InitializeCtx, AdminOnly, admin_accounts}
use plott.Admin.Initialize.{initial_config, initialize}
use plott.Admin.{set_params}

-- What the constants of programs/poyz/src/state.rs say of a config: a collateral ratio of 1.00x to
-- 5.00x, fees of at most 5 %, the deviation bands in order, and shares of at most 100 %.
pub record IsValidated (config : Config) : Type 0 where
  pub age : (0 < config.max_price_age_sec) × (config.max_price_age_sec ≤ 3_600)
  pub ratio : (10_000 ≤ config.collateral_ratio_bps) × (config.collateral_ratio_bps ≤ 50_000)
  pub exit : (0 < config.delta_exit_bps) × (config.delta_exit_bps ≤ config.delta_band_bps)
  pub hard : (config.delta_band_bps ≤ config.delta_hard_bps) × (config.delta_hard_bps ≤ 2_000)
  pub fees : (config.mint_fee_bps ≤ 500) × (config.redeem_fee_bps ≤ 500)
  pub conf : (0 < config.max_conf_bps) × (config.max_conf_bps < 10_000)
  pub slippage : config.max_hedge_slippage_bps < 10_000
  pub share : config.buffer_share_bps ≤ 10_000
  pub draw : (0 < config.buffer_max_draw_bps) × (config.buffer_max_draw_bps ≤ 10_000)
  pub capacity :
      (0 < config.max_supply_vs_capacity_bps) × (config.max_supply_vs_capacity_bps ≤ 10_000)
  pub report_age : 0 < config.max_venue_state_age_sec
  pub venues : (config.venue_flags ≢ 0) × (bit_and config.venue_flags 225 ≡ 0)
  pub bond : 0 < config.min_keeper_bond
  pub supply : 0 < config.max_synthetic_supply
  pub ttl : 0 < config.request_ttl_sec

-- `validate_config` accepts exactly the configs within the bounds.
pub validate_config-IsValidated :
    (config : Config) → validate_config config ≡ ok tt → IsValidated config
unfolding validate_config
validate_config-IsValidated config h = record {
  age = ground arith;
  ratio = ground arith;
  exit = ground arith;
  hard = ground arith;
  fees = ground arith;
  conf = ground arith;
  slippage = ground arith;
  share = ground arith;
  draw = ground arith;
  capacity = ground arith;
  report_age = ground arith;
  venues = ground arith;
  bond = ground arith;
  supply = ground arith;
  ttl = ground arith;
}

pub validate_config_complete :
    (config : Config) → IsValidated config → validate_config config ≡ ok tt
unfolding validate_config
validate_config_complete config v = ground (
  arith, v.age, v.ratio, v.exit, v.hard, v.fees, v.conf, v.slippage, v.share, v.draw, v.capacity,
  v.report_age, v.venues, v.bond, v.supply, v.ttl,
)

module _ {T : Type 0} (rt : Runtime T) (tokens : T) (clock : Clock) where
  set_params_valid :
      (ctx : AdminOnly) (params : UpdateParams) (d : Done T (Unit {0}) ParamsUpdated)
      → set_params rt tokens clock ctx params ≡ ok d
      → (validate_config d.config ≡ ok tt)
        × (d.config ≡ merge params ctx.config)
        × (ctx.authority ≡ ctx.config.authority)
  unfolding set_params admin_accounts
  set_params_valid ctx params d h = ground arith

  -- An update is the authority's, leaves a config within the bounds, and moves none of the totals,
  -- keys, flags and clocks.
  pub set_params-IsValidated :
      (ctx : AdminOnly) (params : UpdateParams) (d : Done T (Unit {0}) ParamsUpdated)
      → set_params rt tokens clock ctx params ≡ ok d
      → (ctx.authority ≡ ctx.config.authority)
        × IsValidated d.config
        × (d.config ≡ record ctx.config {
          max_price_age_sec = d.config.max_price_age_sec;
          max_conf_bps = d.config.max_conf_bps;
          collateral_ratio_bps = d.config.collateral_ratio_bps;
          mint_fee_bps = d.config.mint_fee_bps;
          redeem_fee_bps = d.config.redeem_fee_bps;
          delta_band_bps = d.config.delta_band_bps;
          delta_exit_bps = d.config.delta_exit_bps;
          delta_hard_bps = d.config.delta_hard_bps;
          max_hedge_slippage_bps = d.config.max_hedge_slippage_bps;
          buffer_share_bps = d.config.buffer_share_bps;
          buffer_max_draw_bps = d.config.buffer_max_draw_bps;
          max_supply_vs_capacity_bps = d.config.max_supply_vs_capacity_bps;
          min_keeper_bond = d.config.min_keeper_bond;
          max_synthetic_supply = d.config.max_synthetic_supply;
          request_ttl_sec = d.config.request_ttl_sec;
          min_settlement_delay_sec = d.config.min_settlement_delay_sec;
          unbond_cooldown_sec = d.config.unbond_cooldown_sec;
          buffer_unlock_delay_sec = d.config.buffer_unlock_delay_sec;
          unstake_cooldown_sec = d.config.unstake_cooldown_sec;
          max_venue_state_age_sec = d.config.max_venue_state_age_sec;
          min_net_carry_bps = d.config.min_net_carry_bps;
          max_reportable_capacity_notional = d.config.max_reportable_capacity_notional;
          venue_flags = d.config.venue_flags;
        })
  unfolding merge
  set_params-IsValidated ctx params d h =
      let (valid, merged, own) = set_params_valid ctx params d h in
      (own, validate_config-IsValidated d.config valid, cc)

  module _ (ctx : InitializeCtx) (params : InitializeParams)
      (d : Done T (Unit {0}) ProtocolInitialized)
      (h : initialize rt tokens clock ctx params ≡ ok d) where
    initialize_config :
        d.config
        ≡ initial_config ctx params
            (rt.mint_account tokens ctx.collateral_mint)
            (rt.mint_account tokens ctx.synthetic_mint)
            (rt.mint_account tokens ctx.bond_mint)
    unfolding initialize
    initialize_config = ground arith

    initialize_valid :
        validate_config (
          initial_config ctx params
            (rt.mint_account tokens ctx.collateral_mint)
            (rt.mint_account tokens ctx.synthetic_mint)
            (rt.mint_account tokens ctx.bond_mint))
        ≡ ok tt
    unfolding initialize
    initialize_valid = ground arith

    initialize_mint :
        ((rt.mint_account tokens ctx.synthetic_mint).mint_authority ≡ some rt.config_key)
        × ((rt.mint_account tokens ctx.synthetic_mint).freeze_authority ≡ none)
    unfolding initialize
    initialize_mint = (ground arith, ground arith)

    initialize_checked :
        (leb (rt.mint_account tokens ctx.collateral_mint).decimals 9
          && leb (rt.mint_account tokens ctx.synthetic_mint).decimals 9
          && leb (rt.mint_account tokens ctx.bond_mint).decimals 9)
        ≡ true
    unfolding initialize
    initialize_checked = ground arith

    initialize_decimals :
        ((rt.mint_account tokens ctx.collateral_mint).decimals ≤ 9)
        × ((rt.mint_account tokens ctx.synthetic_mint).decimals ≤ 9)
    initialize_decimals = let c = initialize_checked in ground arith

    initialize_guardian : params.guardian ≢ default_key
    unfolding initialize
    initialize_guardian = ground arith

  -- A new config is within the bounds, has both sides paused and no vaults yet, names the mints that
  -- it was given, has every count of the books at 0 and a last proof hash of zeros, and its synthetic can only be minted by the program and frozen by no one.
  pub initialize-IsValidated :
      (ctx : InitializeCtx) (params : InitializeParams) (d : Done T (Unit {0}) ProtocolInitialized)
      → initialize rt tokens clock ctx params ≡ ok d
      → IsValidated d.config
        × (d.config.mint_paused ≡ true)
        × (d.config.redeem_paused ≡ true)
        × (d.config.vault_flags ≡ 0)
        × (d.config.authority ≡ ctx.authority)
        × (d.config.guardian ≢ default_key)
        × (ledger_of d.config ≡ record {
          collateral_mint = ctx.collateral_mint;
          synthetic_mint = ctx.synthetic_mint;
          bond_mint = ctx.bond_mint;
          last_proof_hash = zero_hash;
          acc_funding_per_share = 0;
          total_collateral = 0;
          pending_collateral = 0;
          total_synthetic = 0;
          pending_redeem_synthetic = 0;
          hedged_notional = 0;
          total_staked = 0;
          staker_funding_balance = 0;
          buffer_balance = 0;
          bonded_total = 0;
          slashed_total = 0;
          rebalance_count = 0;
          last_proof_slot = 0;
          keeper_count = 0;
        })
        × ((rt.mint_account tokens ctx.synthetic_mint).mint_authority ≡ some rt.config_key)
        × ((rt.mint_account tokens ctx.synthetic_mint).freeze_authority ≡ none)
        × (d.config.collateral_decimals ≤ 9)
        × (d.config.synthetic_decimals ≤ 9)
  unfolding initial_config
  initialize-IsValidated ctx params d h = rw (initialize_config ctx params d h) (
    validate_config-IsValidated
        (initial_config ctx params (rt.mint_account tokens ctx.collateral_mint)
          (rt.mint_account tokens ctx.synthetic_mint) (rt.mint_account tokens ctx.bond_mint))
        (initialize_valid ctx params d h),
    refl,
    refl,
    refl,
    refl,
    initialize_guardian ctx params d h,
    refl,
    (initialize_mint ctx params d h).0,
    (initialize_mint ctx params d h).1,
    (initialize_decimals ctx params d h).0,
    (initialize_decimals ctx params d h).1,
  )

  -- A new config's books.
  pub initialize-ledger :
      (ctx : InitializeCtx) (params : InitializeParams) (d : Done T (Unit {0}) ProtocolInitialized)
      → initialize rt tokens clock ctx params ≡ ok d
      → ledger_of d.config ≡ record {
        collateral_mint = ctx.collateral_mint;
        synthetic_mint = ctx.synthetic_mint;
        bond_mint = ctx.bond_mint;
        last_proof_hash = zero_hash;
        acc_funding_per_share = 0;
        total_collateral = 0;
        pending_collateral = 0;
        total_synthetic = 0;
        pending_redeem_synthetic = 0;
        hedged_notional = 0;
        total_staked = 0;
        staker_funding_balance = 0;
        buffer_balance = 0;
        bonded_total = 0;
        slashed_total = 0;
        rebalance_count = 0;
        last_proof_slot = 0;
        keeper_count = 0;
      }
  unfolding initial_config
  initialize-ledger ctx params d h = rw (initialize_config ctx params d h) refl
