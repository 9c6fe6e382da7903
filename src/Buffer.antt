-- ===== src/Buffer.antt =====
-- The insurance buffer (programs/poyz/src/instructions/buffer.rs): deposits, and draws into the funding
-- vault, which is the one place that a draw can go to.
pub mod Draws
pub mod Books
mod Tests
use plott.Common.{
  ℕ, ◌+◌, ◌-◌, not, ◌==◌, ltb, leb, if◌then◌else◌, Result, ok, ◌>>=◌, ◌>>◌, require,
  token_program_mismatch, unauthorized, zero_amount, insufficient_buffer, no_stakers, buffer_locked,
  buffer_draw_cap_exceeded,
}
use plott.Common.Int.{pos, leb_ℤ, eqb_ℤ}
use plott.Common.Checked.{checked_add, checked_sub, checked_sub_ℤ}
use plott.Math.{acc_increment, mul_bps_floor}
use plott.State.{Config}
use plott.State.Keys.{Pubkey}
use plott.Runtime.{
  Runtime, Clock, Done, Wallet, owned_wallet, vault, buffer_vault, funding_vault, deposit, withdraw,
}
use plott.Events.Funding.{BufferDeposited, BufferWithdrawn}

pub record BufferDepositCtx : Type 0 where
  pub depositor : Pubkey
  pub config : Config
  pub synthetic_mint : Pubkey
  pub depositor_synthetic : Wallet
  pub token_program : Pubkey

pub record BufferWithdrawCtx : Type 0 where
  pub authority : Pubkey
  pub config : Config
  pub synthetic_mint : Pubkey
  pub token_program : Pubkey

buffer_deposit_accounts : BufferDepositCtx → Result (Unit {0})
unfolding owned_wallet
buffer_deposit_accounts ctx = do
  require (ctx.config.synthetic_mint == ctx.synthetic_mint) token_program_mismatch
  require (ctx.token_program == ctx.config.token_program) token_program_mismatch
  owned_wallet ctx.depositor_synthetic ctx.synthetic_mint ctx.depositor

buffer_withdraw_accounts : BufferWithdrawCtx → Result (Unit {0})
buffer_withdraw_accounts ctx = do
  require (ctx.config.authority == ctx.authority) unauthorized
  require (ctx.config.synthetic_mint == ctx.synthetic_mint) token_program_mismatch
  require (ctx.token_program == ctx.config.token_program) token_program_mismatch

module _ {T : Type 0} (rt : Runtime T) (tokens : T) (clock : Clock) where
  pub buffer_deposit : BufferDepositCtx → ℕ → Result (Done T (Unit {0}) BufferDeposited)
  unfolding buffer_deposit_accounts
  buffer_deposit ctx amount = do
    buffer_deposit_accounts ctx
    require (ltb 0 amount) zero_amount
    tokens' ←
        deposit rt tokens ctx.depositor_synthetic ctx.synthetic_mint buffer_vault ctx.depositor
          amount
    balance ← checked_add 64 ctx.config.buffer_balance amount
    ok (record {
      config = record ctx.config { buffer_balance = balance };
      account = tt;
      tokens = tokens';
      event = record {
        config = rt.config_key;
        depositor = ctx.depositor;
        amount = amount;
        buffer_balance = balance;
      };
    })

  pub buffer_withdraw : BufferWithdrawCtx → ℕ → Result (Done T (Unit {0}) BufferWithdrawn)
  unfolding buffer_withdraw_accounts
  buffer_withdraw ctx amount = do
    buffer_withdraw_accounts ctx
    let config = ctx.config
    require (ltb 0 amount) zero_amount
    require (leb amount config.buffer_balance) insufficient_buffer
    require (ltb 0 config.total_staked) no_stakers
    require (not (eqb_ℤ config.negative_funding_since (pos 0))) buffer_locked
    in_regime ← checked_sub_ℤ 63 clock.unix_timestamp config.negative_funding_since
    require (leb_ℤ (pos config.buffer_unlock_delay_sec) in_regime) buffer_locked
    draw_cap ← mul_bps_floor config.buffer_balance config.buffer_max_draw_bps
    require (leb amount draw_cap) buffer_draw_cap_exceeded
    tokens' ← withdraw rt tokens buffer_vault ctx.synthetic_mint (vault funding_vault) amount
    buffer_balance ← checked_sub config.buffer_balance amount
    staker_balance ← checked_add 64 config.staker_funding_balance amount
    increment ← acc_increment amount config.total_staked
    acc ← checked_add 128 config.acc_funding_per_share increment
    ok (record {
      config = record config {
        buffer_balance = buffer_balance;
        staker_funding_balance = staker_balance;
        acc_funding_per_share = acc;
      };
      account = tt;
      tokens = tokens';
      event = record {
        config = rt.config_key;
        authority = ctx.authority;
        amount = amount;
        buffer_balance = buffer_balance;
        acc_funding_per_share = acc;
        negative_funding_since = config.negative_funding_since;
        timestamp = clock.unix_timestamp;
      };
    })
