-- ===== src/Admin/Tests.antt =====
-- Runs of the handlers of programs/poyz/src/instructions/admin.rs on the accounts of Examples/Setup, and
-- the theorems of this component there.
use plott.Common.{◌≤◌, ◌≡◌, refl, ◌≢◌, ◌⊎◌, some, none, true, false, ok}
use plott.Common.Int.{pos, negsuc, ◌≤ℤ◌, ◌<ℤ◌}
use plott.State.Keys.{default_key, zero_hash}
use plott.State.Ledger.{ledger_of}
use plott.Examples.{is_ok, value_of, ok-value_of}
use plott.Examples.Setup.{config, rt, clock, tokens, keeper, launch_params, launch_ctx}
use plott.Examples.Ledger.{Tokens}
use plott.State.{venue_enabled, vaults_ready}
use plott.Runtime.{Done}
use plott.Events.Admin.{
  ProtocolInitialized, ParamsUpdated, VenueStateReported, AuthorityTransferProposed,
  AuthorityTransferred,
}
use plott.Admin.Params.{UpdateParams, validate_config}
use plott.Admin.Validated.{IsValidated, validate_config-IsValidated, initialize-IsValidated}
use plott.Admin.Reports.{report_venue_state-regime}
use plott.Admin.Accounts.{AdminOnly, SignerCtx, ReportVenueStateCtx}
use plott.Admin.Initialize.{initialize}
use plott.Admin.{set_params, set_paused, report_venue_state, transfer_authority, accept_authority}

-- A new mint fee, and nothing else.
abbrev fee_update : UpdateParams
fee_update = record {
  max_price_age_sec = none;
  max_conf_bps = none;
  collateral_ratio_bps = none;
  mint_fee_bps = some 30;
  redeem_fee_bps = none;
  delta_band_bps = none;
  delta_exit_bps = none;
  delta_hard_bps = none;
  max_hedge_slippage_bps = none;
  buffer_share_bps = none;
  buffer_max_draw_bps = none;
  max_supply_vs_capacity_bps = none;
  min_keeper_bond = none;
  max_synthetic_supply = none;
  request_ttl_sec = none;
  min_settlement_delay_sec = none;
  unbond_cooldown_sec = none;
  buffer_unlock_delay_sec = none;
  unstake_cooldown_sec = none;
  max_venue_state_age_sec = none;
  min_net_carry_bps = none;
  max_reportable_capacity_notional = none;
  venue_flags = none;
}

abbrev owner_ctx : AdminOnly
owner_ctx = record { authority = 10; config = config }

abbrev guardian_ctx : SignerCtx
guardian_ctx = record { signer = 11; config = config }

abbrev report_ctx : ReportVenueStateCtx
report_ctx = record { signer = 200; config = config; keeper_account = some keeper }

launch_runs : is_ok (initialize rt tokens clock launch_ctx launch_params) ≡ true
unfolding initialize plott.Oracle.validate_oracle_account plott.Oracle.read_update
    plott.Oracle.split_discriminator
launch_runs = refl

abbrev launch_done : Done Tokens (Unit {0}) ProtocolInitialized
launch_done = value_of (initialize rt tokens clock launch_ctx launch_params) launch_runs

launch_ok : initialize rt tokens clock launch_ctx launch_params ≡ ok launch_done
launch_ok = ok-value_of (initialize rt tokens clock launch_ctx launch_params) launch_runs

params_runs : is_ok (set_params rt tokens clock owner_ctx fee_update) ≡ true
unfolding set_params
params_runs = refl

abbrev params_done : Done Tokens (Unit {0}) ParamsUpdated
params_done = value_of (set_params rt tokens clock owner_ctx fee_update) params_runs

params_ok : set_params rt tokens clock owner_ctx fee_update ≡ ok params_done
params_ok = ok-value_of (set_params rt tokens clock owner_ctx fee_update) params_runs

pause_runs : is_ok (set_paused rt tokens clock guardian_ctx true false) ≡ true
unfolding set_paused vaults_ready
pause_runs = refl

report_runs :
    is_ok (report_venue_state rt tokens clock report_ctx 1 (negsuc 9) 5_000_000_000_000) ≡ true
unfolding report_venue_state venue_enabled
report_runs = refl

abbrev report_done : Done Tokens (Unit {0}) VenueStateReported
report_done =
    value_of (report_venue_state rt tokens clock report_ctx 1 (negsuc 9) 5_000_000_000_000)
      report_runs

report_ok :
    report_venue_state rt tokens clock report_ctx 1 (negsuc 9) 5_000_000_000_000 ≡ ok report_done
report_ok =
    ok-value_of (report_venue_state rt tokens clock report_ctx 1 (negsuc 9) 5_000_000_000_000)
      report_runs

propose_runs : is_ok (transfer_authority rt tokens clock owner_ctx 13) ≡ true
unfolding transfer_authority
propose_runs = refl

abbrev propose_done : Done Tokens (Unit {0}) AuthorityTransferProposed
propose_done = value_of (transfer_authority rt tokens clock owner_ctx 13) propose_runs

propose_ok : transfer_authority rt tokens clock owner_ctx 13 ≡ ok propose_done
propose_ok = ok-value_of (transfer_authority rt tokens clock owner_ctx 13) propose_runs

abbrev accept_ctx : SignerCtx
accept_ctx = record { signer = 13; config = propose_done.config }

accept_runs : is_ok (accept_authority rt tokens clock accept_ctx) ≡ true
unfolding accept_authority transfer_authority
accept_runs = refl

abbrev accept_done : Done Tokens (Unit {0}) AuthorityTransferred
accept_done = value_of (accept_authority rt tokens clock accept_ctx) accept_runs

accept_ok : accept_authority rt tokens clock accept_ctx ≡ ok accept_done
accept_ok = ok-value_of (accept_authority rt tokens clock accept_ctx) accept_runs

-- The guardian cannot clear a flag, and a report cannot raise the capacity above the cap.
guardian_clears :
    is_ok (
      set_paused rt tokens clock
        (record guardian_ctx { config = record config { mint_paused = true } })
        false
        false)
    ≡ false
unfolding set_paused
guardian_clears = refl

report_capped : report_done.config.venue_capacity_notional ≡ 2_000_000_000_000
unfolding report_venue_state venue_enabled
report_capped = refl

validated : validate_config config ≡ ok tt
unfolding validate_config
validated = refl

is_validated : IsValidated config
is_validated = validate_config-IsValidated config validated

initialize-IsValidated_example :
    IsValidated launch_done.config
    × (launch_done.config.mint_paused ≡ true)
    × (launch_done.config.redeem_paused ≡ true)
    × (launch_done.config.vault_flags ≡ 0)
    × (launch_done.config.authority ≡ launch_ctx.authority)
    × (launch_done.config.guardian ≢ default_key)
    × (ledger_of launch_done.config ≡ record {
      collateral_mint = launch_ctx.collateral_mint;
      synthetic_mint = launch_ctx.synthetic_mint;
      bond_mint = launch_ctx.bond_mint;
      last_proof_hash = zero_hash;
      acc_funding_per_share = 0;
      total_collateral = 0;
      pending_collateral = 0;
      total_synthetic = 0;
      pending_redeem_synthetic = 0;
      hedged_notional = 0;
      total_staked = 0;
      staker_funding_balance = 0;
      buffer_balance = 0;
      bonded_total = 0;
      slashed_total = 0;
      rebalance_count = 0;
      last_proof_slot = 0;
      keeper_count = 0;
    })
    × ((rt.mint_account tokens launch_ctx.synthetic_mint).mint_authority ≡ some rt.config_key)
    × ((rt.mint_account tokens launch_ctx.synthetic_mint).freeze_authority ≡ none)
    × (launch_done.config.collateral_decimals ≤ 9)
    × (launch_done.config.synthetic_decimals ≤ 9)
initialize-IsValidated_example =
    initialize-IsValidated rt tokens clock launch_ctx launch_params launch_done launch_ok

report_venue_state-regime_example :
    ((pos 0 ≤ℤ (negsuc 9)) × (report_done.config.negative_funding_since ≡ pos 0))
    ⊎ (((negsuc 9) <ℤ pos 0)
        × (((report_ctx.config.negative_funding_since ≡ pos 0)
              × (report_done.config.negative_funding_since ≡ clock.unix_timestamp))
            ⊎ ((report_ctx.config.negative_funding_since ≢ pos 0)
                × (report_done.config.negative_funding_since
                    ≡ report_ctx.config.negative_funding_since))))
report_venue_state-regime_example =
    report_venue_state-regime rt tokens clock report_ctx 1 (negsuc 9) 5_000_000_000_000 report_done
      report_ok
