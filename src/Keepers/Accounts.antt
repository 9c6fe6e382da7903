-- ===== src/Keepers/Accounts.antt =====
-- The account contexts of programs/poyz/src/instructions/keeper.rs and their constraints.
use plott.Common.{◌==◌, Result, ◌>>◌, require, token_program_mismatch, unauthorized}
use plott.State.{Config, Keeper}
use plott.State.Keys.{Pubkey}
use plott.Runtime.{Wallet, owned_wallet}

-- The keeper account is created by the instruction.
pub record KeeperRegisterCtx : Type 0 where
  pub keeper : Pubkey
  pub config : Config
  pub bond_mint : Pubkey
  pub keeper_bond_source : Wallet
  pub token_program : Pubkey

-- `KeeperBond`. Its token account is `keeper_bond_source` there and `keeper_bond_destination` in `KeeperUnbond`,
-- whose other accounts and constraints are the same.
pub record KeeperBondCtx : Type 0 where
  pub keeper : Pubkey
  pub config : Config
  pub keeper_account : Keeper
  pub bond_mint : Pubkey
  pub keeper_bond_wallet : Wallet
  pub token_program : Pubkey

-- `KeeperUnbond`
abbrev pub KeeperUnbondCtx : Type 0
KeeperUnbondCtx = KeeperBondCtx

pub record KeeperSlashCtx : Type 0 where
  pub authority : Pubkey
  pub config : Config
  pub keeper_account : Keeper
  pub bond_mint : Pubkey
  pub token_program : Pubkey

unfoldable pub keeper_register_accounts : KeeperRegisterCtx → Result (Unit {0})
unfolding owned_wallet
keeper_register_accounts ctx = do
  require (ctx.config.bond_mint == ctx.bond_mint) token_program_mismatch
  require (ctx.token_program == ctx.config.token_program) token_program_mismatch
  owned_wallet ctx.keeper_bond_source ctx.bond_mint ctx.keeper

unfoldable pub keeper_bond_accounts : KeeperBondCtx → Result (Unit {0})
unfolding owned_wallet
keeper_bond_accounts ctx = do
  require (ctx.config.bond_mint == ctx.bond_mint) token_program_mismatch
  require (ctx.token_program == ctx.config.token_program) token_program_mismatch
  require (ctx.keeper_account.keeper == ctx.keeper) unauthorized
  owned_wallet ctx.keeper_bond_wallet ctx.bond_mint ctx.keeper

unfoldable pub keeper_slash_accounts : KeeperSlashCtx → Result (Unit {0})
keeper_slash_accounts ctx = do
  require (ctx.config.authority == ctx.authority) unauthorized
  require (ctx.config.bond_mint == ctx.bond_mint) token_program_mismatch
  require (ctx.token_program == ctx.config.token_program) token_program_mismatch
