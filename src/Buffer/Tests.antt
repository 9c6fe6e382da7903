-- ===== src/Buffer/Tests.antt =====
-- Runs of the handlers of programs/poyz/src/instructions/buffer.rs on the accounts of Examples/Setup, and
-- the theorems of this component there.
use plott.Common.{◌*◌, ◌≤◌, ◌<◌, ◌≡◌, refl, ◌≢◌, true, false, ok}
use plott.Common.Int.{pos, ◌-ℤ◌, ◌≤ℤ◌}
use plott.Examples.{is_ok, value_of, ok-value_of}
use plott.Examples.Setup.{config, rt, clock, tokens, account_of}
use plott.Examples.Ledger.{Tokens}
use plott.Runtime.{Done}
use plott.Events.Funding.{BufferDeposited, BufferWithdrawn}
use plott.Buffer.Draws.{buffer_withdraw_gated}
use plott.Buffer.{BufferDepositCtx, BufferWithdrawCtx, buffer_deposit, buffer_withdraw}

abbrev deposit_ctx : BufferDepositCtx
deposit_ctx = record {
  depositor = 100;
  config = config;
  synthetic_mint = 21;
  depositor_synthetic = account_of 100 21;
  token_program = 5;
}

abbrev draw_ctx : BufferWithdrawCtx
draw_ctx = record { authority = 10; config = config; synthetic_mint = 21; token_program = 5 }

deposit_runs : is_ok (buffer_deposit rt tokens clock deposit_ctx 300) ≡ true
unfolding buffer_deposit
deposit_runs = refl

abbrev deposit_done : Done Tokens (Unit {0}) BufferDeposited
deposit_done = value_of (buffer_deposit rt tokens clock deposit_ctx 300) deposit_runs

deposit_ok : buffer_deposit rt tokens clock deposit_ctx 300 ≡ ok deposit_done
deposit_ok = ok-value_of (buffer_deposit rt tokens clock deposit_ctx 300) deposit_runs

draw_runs : is_ok (buffer_withdraw rt tokens clock draw_ctx 5_000) ≡ true
unfolding buffer_withdraw ◌-ℤ◌ plott.Math.mul_bps_floor plott.Math.acc_increment
draw_runs = refl

abbrev draw_done : Done Tokens (Unit {0}) BufferWithdrawn
draw_done = value_of (buffer_withdraw rt tokens clock draw_ctx 5_000) draw_runs

draw_ok : buffer_withdraw rt tokens clock draw_ctx 5_000 ≡ ok draw_done
draw_ok = ok-value_of (buffer_withdraw rt tokens clock draw_ctx 5_000) draw_runs

-- A unit above half of the buffer, and a draw a second before the delay is over.
draw_large : is_ok (buffer_withdraw rt tokens clock draw_ctx 5_001) ≡ false
unfolding buffer_withdraw ◌-ℤ◌ plott.Math.mul_bps_floor
draw_large = refl

draw_soon :
    is_ok (buffer_withdraw rt tokens (record clock { unix_timestamp = pos 599 }) draw_ctx 5_000)
    ≡ false
unfolding buffer_withdraw ◌-ℤ◌
draw_soon = refl

buffer_withdraw_gated_example :
    (draw_ctx.authority ≡ draw_ctx.config.authority)
    × (0 < 5_000)
    × (0 < draw_ctx.config.total_staked)
    × (draw_ctx.config.negative_funding_since ≢ pos 0)
    × (pos draw_ctx.config.buffer_unlock_delay_sec
        ≤ℤ clock.unix_timestamp -ℤ draw_ctx.config.negative_funding_since)
    × (5_000 * 10_000 ≤ draw_ctx.config.buffer_balance * draw_ctx.config.buffer_max_draw_bps)
buffer_withdraw_gated_example =
    buffer_withdraw_gated rt tokens clock draw_ctx 5_000 draw_done draw_ok
