-- ===== src/Admin.antt =====
-- Configuration, pausing, venue reports and the authority handover
-- (programs/poyz/src/instructions/admin.rs).
pub mod Accounts
pub mod Params
pub mod Initialize
pub mod Validated
pub mod Roles
pub mod Reports
pub mod Books
mod Tests
use plott.Common.{
  ℕ, min, Bool, not, ◌&&◌, ◌||◌, ◌==◌, leb, if◌then◌else◌, Result, ok, ◌>>=◌, ◌>>◌, require,
  unauthorized, no_pending_authority, not_pending_authority, venue_not_enabled, carry_out_of_range,
  venue_state_not_monotonic,
}
use plott.Common.Int.{ℤ, pos, leb_ℤ, ltb_ℤ, eqb_ℤ}
use plott.State.{venue_enabled}
use plott.State.Keys.{Pubkey, Hash, default_key}
use plott.Pyth.{AccountInfo}
use plott.Runtime.{Runtime, Clock, Done}
use plott.Oracle.{validate_oracle_account}
use plott.Proof.{abs_i32}
use plott.Events.Admin.{
  ParamsUpdated, PauseChanged, GuardianChanged, VenueStateReported, OracleUpdated,
  AuthorityTransferProposed, AuthorityTransferred,
}
use Accounts.{
  AdminOnly, SignerCtx, SetOracleCtx, AcceptAuthorityCtx, ReportVenueStateCtx, admin_accounts,
  check_reporter, check_pause,
}
use Params.{UpdateParams, merge, validate_config}

abbrev pub carry_bps_limit : ℕ
carry_bps_limit = 1_000_000

-- The clock of the negative-funding regime: it starts at the first negative report, and any other
-- report clears it.
pub regime_clock : ℤ → ℤ → ℤ → ℤ
regime_clock net_carry_bps since now =
    if ltb_ℤ net_carry_bps (pos 0) then if eqb_ℤ since (pos 0) then now else since else pos 0

module _ {T : Type 0} (rt : Runtime T) (tokens : T) (clock : Clock) where
  pub set_params : AdminOnly → UpdateParams → Result (Done T (Unit {0}) ParamsUpdated)
  unfolding admin_accounts merge validate_config
  set_params ctx params = do
    admin_accounts ctx
    let config = merge params ctx.config
    validate_config config
    ok (record {
      config = config;
      account = tt;
      tokens = tokens;
      event = record {
        config = rt.config_key;
        authority = ctx.authority;
        max_price_age_sec = config.max_price_age_sec;
        max_conf_bps = config.max_conf_bps;
        collateral_ratio_bps = config.collateral_ratio_bps;
        mint_fee_bps = config.mint_fee_bps;
        redeem_fee_bps = config.redeem_fee_bps;
        delta_band_bps = config.delta_band_bps;
        delta_exit_bps = config.delta_exit_bps;
        delta_hard_bps = config.delta_hard_bps;
        max_hedge_slippage_bps = config.max_hedge_slippage_bps;
        buffer_share_bps = config.buffer_share_bps;
        buffer_max_draw_bps = config.buffer_max_draw_bps;
        min_keeper_bond = config.min_keeper_bond;
        max_synthetic_supply = config.max_synthetic_supply;
        request_ttl_sec = config.request_ttl_sec;
        min_settlement_delay_sec = config.min_settlement_delay_sec;
        unbond_cooldown_sec = config.unbond_cooldown_sec;
        buffer_unlock_delay_sec = config.buffer_unlock_delay_sec;
        unstake_cooldown_sec = config.unstake_cooldown_sec;
        max_supply_vs_capacity_bps = config.max_supply_vs_capacity_bps;
        max_venue_state_age_sec = config.max_venue_state_age_sec;
        min_net_carry_bps = config.min_net_carry_bps;
        max_reportable_capacity_notional = config.max_reportable_capacity_notional;
        venue_flags = config.venue_flags;
      };
    })

  unfoldable pub set_paused : SignerCtx → Bool → Bool → Result (Done T (Unit {0}) PauseChanged)
  unfolding check_pause
  set_paused ctx mint_paused redeem_paused = do
    check_pause ctx mint_paused redeem_paused
    ok (record {
      config = record ctx.config { mint_paused = mint_paused; redeem_paused = redeem_paused };
      account = tt;
      tokens = tokens;
      event = record {
        config = rt.config_key;
        signer = ctx.signer;
        mint_paused = mint_paused;
        redeem_paused = redeem_paused;
      };
    })

  pub set_guardian : AdminOnly → Pubkey → Result (Done T (Unit {0}) GuardianChanged)
  unfolding admin_accounts
  set_guardian ctx guardian = do
    admin_accounts ctx
    require (not (guardian == default_key)) unauthorized
    ok (record {
      config = record ctx.config { guardian = guardian };
      account = tt;
      tokens = tokens;
      event = record {
        config = rt.config_key;
        authority = ctx.authority;
        previous_guardian = ctx.config.guardian;
        guardian = guardian;
      };
    })

  unfoldable pub report_venue_state :
      ReportVenueStateCtx → ℕ → ℤ → ℕ → Result (Done T (Unit {0}) VenueStateReported)
  unfolding check_reporter regime_clock
  report_venue_state ctx venue_id net_carry_bps capacity_notional = do
    check_reporter ctx
    let config = ctx.config
    require (venue_enabled config venue_id) venue_not_enabled
    carry ← abs_i32 net_carry_bps
    require (leb carry carry_bps_limit) carry_out_of_range
    let now = clock.unix_timestamp
    require (leb_ℤ config.venue_state_at now) venue_state_not_monotonic
    let effective_capacity = min capacity_notional config.max_reportable_capacity_notional
    let since = regime_clock net_carry_bps config.negative_funding_since now
    ok (record {
      config = record config {
        last_venue_id = venue_id;
        last_net_carry_bps = net_carry_bps;
        venue_capacity_notional = effective_capacity;
        venue_state_at = now;
        negative_funding_since = since;
      };
      account = tt;
      tokens = tokens;
      event = record {
        config = rt.config_key;
        reporter = ctx.signer;
        reporter_is_authority = ctx.signer == config.authority;
        venue_id = venue_id;
        net_carry_bps = net_carry_bps;
        reported_capacity = capacity_notional;
        capacity_notional = effective_capacity;
        negative_funding_since = since;
        slot = clock.slot;
        timestamp = now;
      };
    })

  pub set_oracle : SetOracleCtx → AccountInfo → Hash → Result (Done T (Unit {0}) OracleUpdated)
  unfolding admin_accounts
  set_oracle ctx oracle feed_id = do
    admin_accounts ctx
    validate_oracle_account rt oracle feed_id
    ok (record {
      config = record ctx.config { oracle = oracle.key; feed_id = feed_id };
      account = tt;
      tokens = tokens;
      event = record {
        config = rt.config_key;
        authority = ctx.authority;
        previous_oracle = ctx.config.oracle;
        oracle = oracle.key;
        feed_id = feed_id;
      };
    })

  pub transfer_authority : AdminOnly → Pubkey → Result (Done T (Unit {0}) AuthorityTransferProposed)
  unfolding admin_accounts
  transfer_authority ctx new_authority = do
    admin_accounts ctx
    ok (record {
      config = record ctx.config { pending_authority = new_authority };
      account = tt;
      tokens = tokens;
      event = record {
        config = rt.config_key;
        current_authority = ctx.config.authority;
        pending_authority = new_authority;
      };
    })

  pub accept_authority : AcceptAuthorityCtx → Result (Done T (Unit {0}) AuthorityTransferred)
  accept_authority ctx = do
    let config = ctx.config
    require (not (config.pending_authority == default_key)) no_pending_authority
    require (ctx.signer == config.pending_authority) not_pending_authority
    ok (record {
      config = record config {
        authority = config.pending_authority;
        pending_authority = default_key;
      };
      account = tt;
      tokens = tokens;
      event = record {
        config = rt.config_key;
        previous_authority = config.authority;
        new_authority = config.pending_authority;
      };
    })
