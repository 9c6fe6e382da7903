-- ===== src/Mint/Tests.antt =====
-- Runs of the handlers of programs/poyz/src/instructions/mint.rs on the accounts of Examples/Setup, and the
-- theorems of this component there.
use plott.Common.{◌+◌, ◌-◌, ◌*◌, ◌^◌, ◌≤◌, ◌<◌, ◌≡◌, refl, ◌≢◌, ◌⊎◌, true, false, ok, arith}
use plott.Common.Int.{ℤ, pos, ◌+ℤ◌, ◌-ℤ◌, ◌≤ℤ◌, ◌<ℤ◌}
use plott.Math.Value.{rate_num, rate_den}
use plott.State.{MintRequest, venue_enabled, vaults_ready}
use plott.State.Keys.{zero_hash}
use plott.Pyth.{OraclePrice}
use plott.Valuation.{config_price, config_notional, config_shift}
use plott.Examples.{is_ok, value_of, ok-value_of}
use plott.Examples.Setup.{config, oracle, rt, clock, tokens, account_of, keeper, request}
use plott.Examples.Ledger.{Tokens, set}
use plott.Runtime.{Done, vault, wallet, collateral_vault}
use plott.Events.Requests.{MintRequested, MintConfirmed, MintCancelled}
use plott.Mint.Accounts.{MintRequestCtx, MintConfirmCtx, MintCancelCtx}
use plott.Mint.Open.{IsOpen, check_issuance_gates-IsOpen, check_issuance_gates_complete}
use plott.Mint.Gates.{check_issuance_gates}
use plott.Mint.Confirm.{mint_confirm_backed, mint_confirm_guarded, mint_confirm_capped}
use plott.Mint.Request.{mint_request-IsOpen}
use plott.Mint.{mint_request, mint_confirm, mint_cancel}

abbrev confirm_ctx : MintConfirmCtx
confirm_ctx = record {
  keeper = 200;
  config = config;
  keeper_account = keeper;
  request = request;
  user = 100;
  synthetic_mint = 21;
  user_synthetic = account_of 100 21;
  oracle = oracle;
  token_program = 5;
}

confirm_runs : is_ok (mint_confirm rt tokens clock confirm_ctx 99 1 149_000_000) ≡ true
unfolding mint_confirm venue_enabled plott.Oracle.load_price plott.Oracle.read_update
    plott.Oracle.split_discriminator ◌-ℤ◌ plott.Math.confidence_bps
    plott.Math.collateral_to_notional plott.Math.decimal_shift ◌+ℤ◌ plott.Math.scale_down
    plott.Math.mul_bps_floor plott.Math.mul_bps_ceil plott.Math.div_bps_floor
    plott.Mint.Gates.supply_ceiling
confirm_runs = refl

abbrev confirmed : Done Tokens (Unit {0}) MintConfirmed
confirmed = value_of (mint_confirm rt tokens clock confirm_ctx 99 1 149_000_000) confirm_runs

confirmed_ok : mint_confirm rt tokens clock confirm_ctx 99 1 149_000_000 ≡ ok confirmed
confirmed_ok = ok-value_of (mint_confirm rt tokens clock confirm_ctx 99 1 149_000_000) confirm_runs

-- 149.00 less the fee of 0.149.
confirm_mints : confirmed.event.synthetic_minted ≡ 148_851_000
unfolding mint_confirm venue_enabled plott.Oracle.load_price plott.Oracle.read_update
    plott.Oracle.split_discriminator ◌-ℤ◌ plott.Math.confidence_bps
    plott.Math.collateral_to_notional plott.Math.decimal_shift ◌+ℤ◌ plott.Math.scale_down
    plott.Math.mul_bps_floor plott.Math.mul_bps_ceil plott.Math.div_bps_floor
    plott.Mint.Gates.supply_ceiling
confirm_mints = refl

price_runs : is_ok (config_price rt config oracle clock.unix_timestamp) ≡ true
unfolding plott.Oracle.load_price plott.Oracle.read_update plott.Oracle.split_discriminator ◌-ℤ◌
    plott.Math.confidence_bps
price_runs = refl

abbrev price : OraclePrice
price = value_of (config_price rt config oracle clock.unix_timestamp) price_runs

price_ok : config_price rt config oracle clock.unix_timestamp ≡ ok price
price_ok = ok-value_of (config_price rt config oracle clock.unix_timestamp) price_runs

ratio : 10_000 ≤ config.collateral_ratio_bps
ratio = omega arith

-- A fill that is one unit below the band, a confirmation a second after the deadline, and one with no hash.
confirm_fill_small : is_ok (mint_confirm rt tokens clock confirm_ctx 99 1 147_509_999) ≡ false
unfolding mint_confirm venue_enabled plott.Oracle.load_price plott.Oracle.read_update
    plott.Oracle.split_discriminator ◌-ℤ◌ plott.Math.confidence_bps
    plott.Math.collateral_to_notional plott.Math.decimal_shift ◌+ℤ◌ plott.Math.scale_down
    plott.Math.mul_bps_floor
confirm_fill_small = refl

confirm_late :
    is_ok (
      mint_confirm rt tokens
        (record clock { unix_timestamp = pos 1_101 })
        confirm_ctx
        99
        1
        149_000_000)
    ≡ false
unfolding mint_confirm venue_enabled
confirm_late = refl

confirm_no_hash : is_ok (mint_confirm rt tokens clock confirm_ctx 0 1 149_000_000) ≡ false
unfolding mint_confirm
confirm_no_hash = refl

abbrev request_ctx : MintRequestCtx
request_ctx = record {
  user = 100;
  config = config;
  collateral_mint = 20;
  user_collateral = account_of 100 20;
  oracle = oracle;
  token_program = 5;
}

request_runs : is_ok (mint_request rt tokens clock request_ctx 9 2_000_000_000 1) ≡ true
unfolding mint_request vaults_ready plott.Oracle.load_price plott.Oracle.read_update
    plott.Oracle.split_discriminator ◌-ℤ◌ plott.Math.confidence_bps check_issuance_gates
    plott.Math.collateral_to_notional plott.Math.decimal_shift ◌+ℤ◌ plott.Math.scale_down
    plott.Math.delta_bps plott.Common.Int.scale_ℤ plott.Common.Int.tdiv
    plott.Mint.Gates.supply_ceiling plott.Math.mul_bps_floor
request_runs = refl

abbrev requested : Done Tokens MintRequest MintRequested
requested = value_of (mint_request rt tokens clock request_ctx 9 2_000_000_000 1) request_runs

requested_ok : mint_request rt tokens clock request_ctx 9 2_000_000_000 1 ≡ ok requested
requested_ok = ok-value_of (mint_request rt tokens clock request_ctx 9 2_000_000_000 1) request_runs

-- Two units of collateral at 150.00.
request_quotes : requested.account.quoted_notional ≡ 300_000_000
unfolding mint_request vaults_ready plott.Oracle.load_price plott.Oracle.read_update
    plott.Oracle.split_discriminator ◌-ℤ◌ plott.Math.confidence_bps check_issuance_gates
    plott.Math.collateral_to_notional plott.Math.decimal_shift ◌+ℤ◌ plott.Math.scale_down
    plott.Math.delta_bps plott.Common.Int.scale_ℤ plott.Common.Int.tdiv
    plott.Mint.Gates.supply_ceiling plott.Math.mul_bps_floor
request_quotes = refl

gates_run : check_issuance_gates config clock.unix_timestamp price ≡ ok tt
unfolding check_issuance_gates ◌-ℤ◌ plott.Math.collateral_to_notional plott.Oracle.load_price
    plott.Oracle.read_update plott.Oracle.split_discriminator plott.Math.confidence_bps
    plott.Math.decimal_shift ◌+ℤ◌ plott.Math.scale_down plott.Math.delta_bps
    plott.Common.Int.scale_ℤ plott.Common.Int.tdiv
gates_run = refl

is_open : IsOpen config clock.unix_timestamp price
is_open = check_issuance_gates-IsOpen config clock.unix_timestamp price gates_run

abbrev cancel_ctx : MintCancelCtx
cancel_ctx = record {
  user = 100;
  config = record config { mint_paused = true };
  request = record request { deadline = pos 999 };
  collateral_mint = 20;
  user_collateral = account_of 100 20;
  token_program = 5;
}

cancel_runs : is_ok (mint_cancel rt tokens clock cancel_ctx) ≡ true
unfolding mint_cancel
cancel_runs = refl

abbrev cancelled : Done Tokens (Unit {0}) MintCancelled
cancelled = value_of (mint_cancel rt tokens clock cancel_ctx) cancel_runs

cancelled_ok : mint_cancel rt tokens clock cancel_ctx ≡ ok cancelled
cancelled_ok = ok-value_of (mint_cancel rt tokens clock cancel_ctx) cancel_runs

expired : cancel_ctx.request.deadline <ℤ clock.unix_timestamp
expired = omega arith

escrow_covered : cancel_ctx.request.collateral_amount ≤ cancel_ctx.config.pending_collateral
escrow_covered = omega arith

-- What the transfer of the escrow leaves.
abbrev refunded : Tokens
refunded =
    let taken = set tokens.balances (vault collateral_vault) 99_000_000_000 in
    record tokens { balances = set taken (wallet (account_of 100 20)) 101_000_000_000 }

small_hedge : config.hedged_notional < 2 ^ 64
small_hedge = omega arith

small_band : config.delta_hard_bps < 2 ^ 16
small_band = omega arith

small_age : config.max_venue_state_age_sec < 2 ^ 32
small_age = omega arith

mint_confirm_backed_example :
    let issued = confirmed.event.synthetic_minted + confirmed.event.fee in
    let s = config_shift confirm_ctx.config price in
    (0 < confirmed.event.synthetic_minted)
    × (issued ≤ confirm_ctx.request.quoted_notional)
    × (issued * rate_den s ≤ confirm_ctx.request.collateral_amount * rate_num price.price s)
    × (issued * (10_000 - confirm_ctx.config.max_hedge_slippage_bps) < (149_000_000 + 1) * 10_000)
mint_confirm_backed_example =
    mint_confirm_backed rt tokens clock confirm_ctx 99 1 149_000_000 confirmed confirmed_ok price
      price_ok ratio

mint_confirm_guarded_example :
    (confirm_ctx.config.mint_paused ≡ false)
    × (confirm_ctx.keeper_account.active ≡ true)
    × (confirm_ctx.config.min_keeper_bond ≤ confirm_ctx.keeper_account.bonded)
    × (99 ≢ zero_hash)
    × (venue_enabled confirm_ctx.config 1 ≡ true)
    × (clock.unix_timestamp ≤ℤ confirm_ctx.request.deadline)
mint_confirm_guarded_example =
    mint_confirm_guarded rt tokens clock confirm_ctx 99 1 149_000_000 confirmed confirmed_ok

mint_confirm_capped_example :
    (confirmed.config.total_synthetic ≤ confirm_ctx.config.max_synthetic_supply)
    × (confirmed.config.total_synthetic * 10_000
        ≤ confirm_ctx.config.venue_capacity_notional
          * confirm_ctx.config.max_supply_vs_capacity_bps)
mint_confirm_capped_example =
    mint_confirm_capped rt tokens clock confirm_ctx 99 1 149_000_000 confirmed confirmed_ok

mint_request-IsOpen_example :
    (request_ctx.config.mint_paused ≡ false)
    × (vaults_ready request_ctx.config ≡ true)
    × (0 < request_ctx.config.keeper_count)
    × ((price : OraclePrice) × (config_price rt request_ctx.config request_ctx.oracle
            clock.unix_timestamp
          ≡ ok price)
        × IsOpen request_ctx.config clock.unix_timestamp price
        × (config_notional request_ctx.config price 2_000_000_000
            ≡ ok requested.account.quoted_notional))
mint_request-IsOpen_example =
    mint_request-IsOpen rt tokens clock request_ctx 9 2_000_000_000 1 requested requested_ok

check_issuance_gates_complete_example :
    check_issuance_gates config clock.unix_timestamp price ≡ ok tt
check_issuance_gates_complete_example =
    check_issuance_gates_complete config clock.unix_timestamp price small_hedge small_band small_age
      is_open
