-- ===== src/Redeem/Accounts.antt =====
-- The account contexts of programs/poyz/src/instructions/redeem.rs and their constraints.
use plott.Common.{
  ◌==◌, Result, ◌>>◌, require, token_program_mismatch, oracle_account_mismatch, unauthorized,
}
use plott.State.{Config, Keeper, RedeemRequest}
use plott.State.Keys.{Pubkey}
use plott.Pyth.{AccountInfo}
use plott.Runtime.{Wallet, owned_wallet}

pub record RedeemRequestCtx : Type 0 where
  pub user : Pubkey
  pub config : Config
  pub synthetic_mint : Pubkey
  pub user_synthetic : Wallet
  pub oracle : AccountInfo
  pub token_program : Pubkey

pub record RedeemConfirmCtx : Type 0 where
  pub keeper : Pubkey
  pub config : Config
  pub keeper_account : Keeper
  pub request : RedeemRequest
  pub user : Pubkey
  pub synthetic_mint : Pubkey
  pub collateral_mint : Pubkey
  pub user_collateral : Wallet
  pub oracle : AccountInfo
  pub token_program : Pubkey

pub record RedeemCancelCtx : Type 0 where
  pub user : Pubkey
  pub config : Config
  pub request : RedeemRequest
  pub synthetic_mint : Pubkey
  pub user_synthetic : Wallet
  pub token_program : Pubkey

unfoldable pub redeem_request_accounts : RedeemRequestCtx → Result (Unit {0})
unfolding owned_wallet
redeem_request_accounts ctx = do
  require (ctx.config.synthetic_mint == ctx.synthetic_mint) token_program_mismatch
  require (ctx.config.oracle == ctx.oracle.key) oracle_account_mismatch
  require (ctx.token_program == ctx.config.token_program) token_program_mismatch
  owned_wallet ctx.user_synthetic ctx.synthetic_mint ctx.user

unfoldable pub redeem_confirm_accounts : RedeemConfirmCtx → Result (Unit {0})
unfolding owned_wallet
redeem_confirm_accounts ctx = do
  require (ctx.config.collateral_mint == ctx.collateral_mint) token_program_mismatch
  require (ctx.config.synthetic_mint == ctx.synthetic_mint) token_program_mismatch
  require (ctx.config.oracle == ctx.oracle.key) oracle_account_mismatch
  require (ctx.token_program == ctx.config.token_program) token_program_mismatch
  require (ctx.keeper_account.keeper == ctx.keeper) unauthorized
  require (ctx.request.user == ctx.user) unauthorized
  owned_wallet ctx.user_collateral ctx.collateral_mint ctx.user

unfoldable pub redeem_cancel_accounts : RedeemCancelCtx → Result (Unit {0})
unfolding owned_wallet
redeem_cancel_accounts ctx = do
  require (ctx.config.synthetic_mint == ctx.synthetic_mint) token_program_mismatch
  require (ctx.token_program == ctx.config.token_program) token_program_mismatch
  require (ctx.request.user == ctx.user) unauthorized
  owned_wallet ctx.user_synthetic ctx.synthetic_mint ctx.user
