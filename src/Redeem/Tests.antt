-- ===== src/Redeem/Tests.antt =====
-- Runs of the handlers of programs/poyz/src/instructions/redeem.rs on the accounts of Examples/Setup, and
-- the theorems of this component there.
use plott.Common.{◌+◌, ◌-◌, ◌*◌, ◌≤◌, ◌<◌, ◌≡◌, refl, ◌≢◌, true, false, ok, arith}
use plott.Common.Int.{pos, ◌+ℤ◌, ◌-ℤ◌, ◌≤ℤ◌, ◌<ℤ◌}
use plott.State.Keys.{zero_hash}
use plott.Pyth.{OraclePrice}
use plott.Valuation.{config_price, config_shift}
use plott.Examples.{is_ok, value_of, ok-value_of}
use plott.Examples.Setup.{config, oracle, update, rt, clock, tokens, account_of, keeper, redemption}
use plott.Examples.Ledger.{Tokens, set, runtime-TokenLaws}
use plott.Math.Value.{rate_num, rate_den}
use plott.State.{RedeemRequest, vaults_ready}
use plott.Runtime.{Done, vault, wallet, collateral_vault, redeem_escrow}
use plott.Events.Requests.{RedeemRequested, RedeemConfirmed, RedeemCancelled}
use plott.Redeem.Accounts.{RedeemRequestCtx, RedeemConfirmCtx, RedeemCancelCtx}
use plott.Redeem.Confirm.{redeem_confirm_guarded, redeem_confirm_backed}
use plott.Redeem.Settled.{redeem_confirm-vaults}
use plott.Redeem.{redeem_request, redeem_confirm, redeem_cancel}

abbrev request_ctx : RedeemRequestCtx
request_ctx = record {
  user = 100;
  config = config;
  synthetic_mint = 21;
  user_synthetic = account_of 100 21;
  oracle = oracle;
  token_program = 5;
}

abbrev confirm_ctx : RedeemConfirmCtx
confirm_ctx = record {
  keeper = 200;
  config = config;
  keeper_account = keeper;
  request = redemption;
  user = 100;
  synthetic_mint = 21;
  collateral_mint = 20;
  user_collateral = account_of 100 20;
  oracle = oracle;
  token_program = 5;
}

abbrev cancel_ctx : RedeemCancelCtx
cancel_ctx = record {
  user = 100;
  config = record config { redeem_paused = true };
  request = record redemption { deadline = pos 999 };
  synthetic_mint = 21;
  user_synthetic = account_of 100 21;
  token_program = 5;
}

request_runs : is_ok (redeem_request rt tokens clock request_ctx 9 50_000_000 1) ≡ true
unfolding redeem_request vaults_ready plott.Oracle.load_price plott.Oracle.read_update
    plott.Oracle.split_discriminator ◌-ℤ◌ plott.Math.confidence_bps plott.Math.mul_bps_ceil
    plott.Math.notional_to_collateral plott.Math.decimal_shift ◌+ℤ◌ plott.Math.scale_divided
request_runs = refl

abbrev request_done : Done Tokens RedeemRequest RedeemRequested
request_done = value_of (redeem_request rt tokens clock request_ctx 9 50_000_000 1) request_runs

request_ok : redeem_request rt tokens clock request_ctx 9 50_000_000 1 ≡ ok request_done
request_ok = ok-value_of (redeem_request rt tokens clock request_ctx 9 50_000_000 1) request_runs

confirm_runs : is_ok (redeem_confirm rt tokens clock confirm_ctx 99 1 99_000_000) ≡ true
unfolding redeem_confirm ◌-ℤ◌ plott.Oracle.load_price plott.Oracle.read_update
    plott.Oracle.split_discriminator plott.Math.confidence_bps plott.Math.mul_bps_ceil
    plott.Math.notional_to_collateral plott.Math.decimal_shift ◌+ℤ◌ plott.Math.scale_divided
    plott.Math.mul_bps_floor
confirm_runs = refl

abbrev confirm_done : Done Tokens (Unit {0}) RedeemConfirmed
confirm_done = value_of (redeem_confirm rt tokens clock confirm_ctx 99 1 99_000_000) confirm_runs

confirm_ok : redeem_confirm rt tokens clock confirm_ctx 99 1 99_000_000 ≡ ok confirm_done
confirm_ok = ok-value_of (redeem_confirm rt tokens clock confirm_ctx 99 1 99_000_000) confirm_runs

cancel_runs : is_ok (redeem_cancel rt tokens clock cancel_ctx) ≡ true
unfolding redeem_cancel
cancel_runs = refl

abbrev cancel_done : Done Tokens (Unit {0}) RedeemCancelled
cancel_done = value_of (redeem_cancel rt tokens clock cancel_ctx) cancel_runs

cancel_ok : redeem_cancel rt tokens clock cancel_ctx ≡ ok cancel_done
cancel_ok = ok-value_of (redeem_cancel rt tokens clock cancel_ctx) cancel_runs

-- 100.00 less the fee of 0.10, at 150.00.
confirm_pays : confirm_done.event.collateral_returned ≡ 666_000_000
unfolding redeem_confirm ◌-ℤ◌ plott.Oracle.load_price plott.Oracle.read_update
    plott.Oracle.split_discriminator plott.Math.confidence_bps plott.Math.mul_bps_ceil
    plott.Math.notional_to_collateral plott.Math.decimal_shift ◌+ℤ◌ plott.Math.scale_divided
    plott.Math.mul_bps_floor
confirm_pays = refl

-- An unwind a unit short, a settlement before the delay, and any venue id.
confirm_unwind_small : is_ok (redeem_confirm rt tokens clock confirm_ctx 99 1 98_999_999) ≡ false
unfolding redeem_confirm ◌-ℤ◌ plott.Oracle.load_price plott.Oracle.read_update
    plott.Oracle.split_discriminator plott.Math.confidence_bps plott.Math.mul_bps_ceil
    plott.Math.notional_to_collateral plott.Math.decimal_shift ◌+ℤ◌ plott.Math.scale_divided
    plott.Math.mul_bps_floor
confirm_unwind_small = refl

confirm_soon :
    is_ok (
      redeem_confirm rt tokens clock
        (record confirm_ctx { request = record redemption { created_at = pos 901 } })
        99
        1
        99_000_000)
    ≡ false
unfolding redeem_confirm ◌-ℤ◌
confirm_soon = refl

confirm_any_venue : is_ok (redeem_confirm rt tokens clock confirm_ctx 99 255 99_000_000) ≡ true
unfolding redeem_confirm ◌-ℤ◌ plott.Oracle.load_price plott.Oracle.read_update
    plott.Oracle.split_discriminator plott.Math.confidence_bps plott.Math.mul_bps_ceil
    plott.Math.notional_to_collateral plott.Math.decimal_shift ◌+ℤ◌ plott.Math.scale_divided
    plott.Math.mul_bps_floor
confirm_any_venue = refl

expired : cancel_ctx.request.deadline <ℤ clock.unix_timestamp
expired = omega arith

escrow_covered : cancel_ctx.request.synthetic_amount ≤ cancel_ctx.config.pending_redeem_synthetic
escrow_covered = omega arith

-- What the transfer of the escrow leaves.
abbrev refunded : Tokens
refunded =
    let taken = set tokens.balances (vault redeem_escrow) 99_900_000_000 in
    record tokens { balances = set taken (wallet (account_of 100 21)) 100_100_000_000 }

redeem_confirm_backed_example :
    (price : OraclePrice) × (config_price rt confirm_ctx.config confirm_ctx.oracle
        clock.unix_timestamp
      ≡ ok price)
    × (let s = config_shift confirm_ctx.config price in
        (0 < confirm_done.event.collateral_returned)
        × (confirm_ctx.request.min_collateral_out ≤ confirm_done.event.collateral_returned)
        × (confirm_done.event.collateral_returned ≤ confirm_ctx.request.quoted_collateral)
        × (confirm_done.event.collateral_returned * rate_num price.price s
            ≤ (confirm_ctx.request.synthetic_amount - confirm_done.event.fee) * rate_den s)
        × (confirm_ctx.request.synthetic_amount * confirm_ctx.config.redeem_fee_bps
            ≤ confirm_done.event.fee * 10_000)
        × (confirm_ctx.request.synthetic_amount
              * (10_000 - confirm_ctx.config.max_hedge_slippage_bps)
            < (99_000_000 + 1) * 10_000))
redeem_confirm_backed_example =
    redeem_confirm_backed rt tokens clock confirm_ctx 99 1 99_000_000 confirm_done confirm_ok

redeem_confirm_guarded_example :
    (confirm_ctx.config.redeem_paused ≡ false)
    × (confirm_ctx.keeper_account.active ≡ true)
    × (confirm_ctx.config.min_keeper_bond ≤ confirm_ctx.keeper_account.bonded)
    × (99 ≢ zero_hash)
    × (pos confirm_ctx.config.min_settlement_delay_sec
        ≤ℤ clock.unix_timestamp -ℤ confirm_ctx.request.created_at)
    × (clock.unix_timestamp ≤ℤ confirm_ctx.request.deadline)
redeem_confirm_guarded_example =
    redeem_confirm_guarded rt tokens clock confirm_ctx 99 1 99_000_000 confirm_done confirm_ok

redeem_confirm-vaults_example :
    (confirm_ctx.user_collateral.authority ≡ confirm_ctx.request.user)
    × (rt.balance confirm_done.tokens (wallet confirm_ctx.user_collateral)
        ≡ rt.balance tokens (wallet confirm_ctx.user_collateral)
          + confirm_done.event.collateral_returned)
    × (rt.balance tokens (vault redeem_escrow)
        ≡ rt.balance confirm_done.tokens (vault redeem_escrow)
          + confirm_ctx.request.synthetic_amount)
    × (rt.supply tokens confirm_ctx.config.synthetic_mint
        ≡ rt.supply confirm_done.tokens confirm_ctx.config.synthetic_mint
          + confirm_ctx.request.synthetic_amount)
    × (rt.balance tokens (vault collateral_vault)
        ≡ rt.balance confirm_done.tokens (vault collateral_vault)
          + confirm_done.event.collateral_returned)
    × (rt.balance confirm_done.tokens (vault redeem_escrow)
          + confirm_ctx.config.pending_redeem_synthetic
        ≡ rt.balance tokens (vault redeem_escrow) + confirm_done.config.pending_redeem_synthetic)
    × (rt.supply confirm_done.tokens confirm_ctx.config.synthetic_mint
          + confirm_ctx.config.total_synthetic
        ≡ rt.supply tokens confirm_ctx.config.synthetic_mint + confirm_done.config.total_synthetic)
    × (rt.balance confirm_done.tokens (vault collateral_vault) + confirm_ctx.config.total_collateral
        ≡ rt.balance tokens (vault collateral_vault) + confirm_done.config.total_collateral)
redeem_confirm-vaults_example =
    redeem_confirm-vaults rt tokens clock confirm_ctx 99 1 99_000_000 confirm_done confirm_ok
      (runtime-TokenLaws update)
