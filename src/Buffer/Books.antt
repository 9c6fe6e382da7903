-- ===== src/Buffer/Books.antt =====
-- What the handlers of programs/poyz/src/instructions/buffer.rs write into the books, in full.
use plott.Common.{ℕ, ◌+◌, ◌≡◌, some, ok, arith, ◌^◌, ◌<◌}
use plott.State.Ledger.{ledger_of}
use plott.State.Settings.{settings_of}
use plott.Runtime.{Runtime, Clock, Done, vault, wallet, buffer_vault, funding_vault}
use plott.Events.Funding.{BufferDeposited, BufferWithdrawn}
use plott.Buffer.{BufferDepositCtx, BufferWithdrawCtx, buffer_deposit, buffer_withdraw}

module _ {T : Type 0} (rt : Runtime T) (tokens : T) (clock : Clock) where
  module _ (ctx : BufferDepositCtx) (amount : ℕ) (d : Done T (Unit {0}) BufferDeposited)
      (done : buffer_deposit rt tokens clock ctx amount ≡ ok d) where
    pub buffer_deposit-settings : settings_of d.config ≡ settings_of ctx.config
    unfolding buffer_deposit
    buffer_deposit-settings = ground arith

    pub buffer_deposit-ledger :
        ledger_of d.config
        ≡ record (ledger_of ctx.config) { buffer_balance = ctx.config.buffer_balance + amount }
    unfolding buffer_deposit
    buffer_deposit-ledger = ground arith

    pub buffer_deposit-transfer :
        rt.transfer_checked tokens
          (wallet ctx.depositor_synthetic)
          ctx.synthetic_mint
          (vault buffer_vault)
          ctx.depositor
          amount
          (rt.mint_account tokens ctx.synthetic_mint).decimals
        ≡ some d.tokens
    unfolding buffer_deposit
    buffer_deposit-transfer = ground arith

  module _ (ctx : BufferWithdrawCtx) (amount : ℕ) (d : Done T (Unit {0}) BufferWithdrawn)
      (done : buffer_withdraw rt tokens clock ctx amount ≡ ok d) where
    pub buffer_withdraw-settings : settings_of d.config ≡ settings_of ctx.config
    unfolding buffer_withdraw
    buffer_withdraw-settings = ground arith

    pub buffer_withdraw-ledger :
        (ledger_of d.config ≡ record (ledger_of ctx.config) {
          buffer_balance = d.config.buffer_balance;
          staker_funding_balance = ctx.config.staker_funding_balance + amount;
          acc_funding_per_share = d.config.acc_funding_per_share;
        })
        × (d.config.buffer_balance + amount ≡ ctx.config.buffer_balance)
    unfolding buffer_withdraw
    buffer_withdraw-ledger = ground arith

    pub buffer_withdraw-transfer :
        rt.transfer_checked tokens
          (vault buffer_vault)
          ctx.synthetic_mint
          (vault funding_vault)
          rt.config_key
          amount
          (rt.mint_account tokens ctx.synthetic_mint).decimals
        ≡ some d.tokens
    unfolding buffer_withdraw
    buffer_withdraw-transfer = ground arith

module _ {T : Type 0} (rt : Runtime T) (tokens : T) (clock : Clock) where
  pub buffer_deposit-fits :
      (ctx : BufferDepositCtx) (amount : ℕ) (d : Done T (Unit {0}) BufferDeposited)
      → buffer_deposit rt tokens clock ctx amount ≡ ok d
      → d.config.buffer_balance < 2 ^ 64
  unfolding buffer_deposit
  buffer_deposit-fits ctx amount d done = ground arith

  pub buffer_withdraw-fits :
      (ctx : BufferWithdrawCtx) (amount : ℕ) (d : Done T (Unit {0}) BufferWithdrawn)
      → buffer_withdraw rt tokens clock ctx amount ≡ ok d
      → (d.config.staker_funding_balance < 2 ^ 64) × (d.config.acc_funding_per_share < 2 ^ 128)
  unfolding buffer_withdraw
  buffer_withdraw-fits ctx amount d done = ground arith
