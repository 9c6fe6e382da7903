-- ===== src/Mint/Accounts.antt =====
-- The account contexts of programs/poyz/src/instructions/mint.rs and their constraints. An account that
-- is found by its seeds, the config and the vaults among them, needs no check of its address.
use plott.Common.{
  ◌==◌, Result, ◌>>◌, require, token_program_mismatch, oracle_account_mismatch, unauthorized,
}
use plott.State.{Config, Keeper, MintRequest}
use plott.State.Keys.{Pubkey}
use plott.Pyth.{AccountInfo}
use plott.Runtime.{Wallet, owned_wallet}

pub record MintRequestCtx : Type 0 where
  pub user : Pubkey
  pub config : Config
  pub collateral_mint : Pubkey
  pub user_collateral : Wallet
  pub oracle : AccountInfo
  pub token_program : Pubkey

pub record MintConfirmCtx : Type 0 where
  pub keeper : Pubkey
  pub config : Config
  pub keeper_account : Keeper
  pub request : MintRequest
  pub user : Pubkey
  pub synthetic_mint : Pubkey
  pub user_synthetic : Wallet
  pub oracle : AccountInfo
  pub token_program : Pubkey

pub record MintCancelCtx : Type 0 where
  pub user : Pubkey
  pub config : Config
  pub request : MintRequest
  pub collateral_mint : Pubkey
  pub user_collateral : Wallet
  pub token_program : Pubkey

unfoldable pub mint_request_accounts : MintRequestCtx → Result (Unit {0})
unfolding owned_wallet
mint_request_accounts ctx = do
  require (ctx.config.collateral_mint == ctx.collateral_mint) token_program_mismatch
  require (ctx.config.oracle == ctx.oracle.key) oracle_account_mismatch
  require (ctx.token_program == ctx.config.token_program) token_program_mismatch
  owned_wallet ctx.user_collateral ctx.collateral_mint ctx.user

unfoldable pub mint_confirm_accounts : MintConfirmCtx → Result (Unit {0})
unfolding owned_wallet
mint_confirm_accounts ctx = do
  require (ctx.config.synthetic_mint == ctx.synthetic_mint) token_program_mismatch
  require (ctx.config.oracle == ctx.oracle.key) oracle_account_mismatch
  require (ctx.token_program == ctx.config.token_program) token_program_mismatch
  require (ctx.keeper_account.keeper == ctx.keeper) unauthorized
  require (ctx.request.user == ctx.user) unauthorized
  owned_wallet ctx.user_synthetic ctx.synthetic_mint ctx.user

unfoldable pub mint_cancel_accounts : MintCancelCtx → Result (Unit {0})
unfolding owned_wallet
mint_cancel_accounts ctx = do
  require (ctx.config.collateral_mint == ctx.collateral_mint) token_program_mismatch
  require (ctx.token_program == ctx.config.token_program) token_program_mismatch
  require (ctx.request.user == ctx.user) unauthorized
  owned_wallet ctx.user_collateral ctx.collateral_mint ctx.user
