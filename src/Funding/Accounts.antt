-- ===== src/Funding/Accounts.antt =====
-- The account contexts of programs/poyz/src/instructions/funding.rs and their constraints.
use plott.Common.{◌==◌, Result, ◌>>◌, require, token_program_mismatch, unauthorized}
use plott.State.{Config, StakePosition}
use plott.State.Keys.{Pubkey}
use plott.Runtime.{Wallet, owned_wallet}

pub record SettleFundingCtx : Type 0 where
  pub authority : Pubkey
  pub config : Config
  pub synthetic_mint : Pubkey
  pub authority_synthetic : Wallet
  pub token_program : Pubkey

-- `Stake`. A position that `init_if_needed` has just created is `new_position`.
pub record StakeCtx : Type 0 where
  pub owner : Pubkey
  pub config : Config
  pub position : StakePosition
  pub synthetic_mint : Pubkey
  pub owner_synthetic : Wallet
  pub token_program : Pubkey

-- `UnstakeCtx`. `ClaimFunding` differs in the vault only.
pub record UnstakeCtx : Type 0 where
  pub owner : Pubkey
  pub config : Config
  pub position : StakePosition
  pub synthetic_mint : Pubkey
  pub owner_synthetic : Wallet
  pub token_program : Pubkey

-- `ClaimFunding`
abbrev pub ClaimFundingCtx : Type 0
ClaimFundingCtx = UnstakeCtx

unfoldable pub settle_funding_accounts : SettleFundingCtx → Result (Unit {0})
unfolding owned_wallet
settle_funding_accounts ctx = do
  require (ctx.config.authority == ctx.authority) unauthorized
  require (ctx.config.synthetic_mint == ctx.synthetic_mint) token_program_mismatch
  require (ctx.token_program == ctx.config.token_program) token_program_mismatch
  owned_wallet ctx.authority_synthetic ctx.synthetic_mint ctx.authority

unfoldable pub stake_accounts : StakeCtx → Result (Unit {0})
unfolding owned_wallet
stake_accounts ctx = do
  require (ctx.config.synthetic_mint == ctx.synthetic_mint) token_program_mismatch
  require (ctx.token_program == ctx.config.token_program) token_program_mismatch
  owned_wallet ctx.owner_synthetic ctx.synthetic_mint ctx.owner

unfoldable pub unstake_accounts : UnstakeCtx → Result (Unit {0})
unfolding owned_wallet
unstake_accounts ctx = do
  require (ctx.config.synthetic_mint == ctx.synthetic_mint) token_program_mismatch
  require (ctx.token_program == ctx.config.token_program) token_program_mismatch
  require (ctx.position.owner == ctx.owner) unauthorized
  owned_wallet ctx.owner_synthetic ctx.synthetic_mint ctx.owner
