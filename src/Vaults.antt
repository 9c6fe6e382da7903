-- ===== src/Vaults.antt =====
-- The creation of the program's token accounts (programs/poyz/src/instructions/vaults.rs). The `init` of
-- a vault is Anchor's; it fails when the vault exists, which is when the group's flag is set.
pub mod Flags
pub mod Books
mod Tests
use Prim.Native.Nat.{bit_and, bit_or}
use plott.Common.{
  ℕ, ◌==◌, Result, ok, ◌>>=◌, ◌>>◌, require, token_program_mismatch, unauthorized,
  vault_already_initialized,
}
use plott.State.{Config}
use plott.State.Keys.{Pubkey}
use plott.State.Limits.{
  vault_flag_collateral, vault_flag_bond, vault_flag_funding, vault_flag_stake,
}
use plott.Runtime.{Runtime, Done}
use plott.Events.Admin.{VaultGroupInitialized}

-- The contexts of the four instructions: the authority, the mint of the vaults, the token program.
pub record InitVaultsCtx : Type 0 where
  pub authority : Pubkey
  pub config : Config
  pub mint : Pubkey
  pub token_program : Pubkey

-- `InitBondVaults`, `InitFundingVaults` and `InitStakeVaults`
abbrev pub InitBondVaultsCtx : Type 0
InitBondVaultsCtx = InitVaultsCtx

abbrev pub InitFundingVaultsCtx : Type 0
InitFundingVaultsCtx = InitVaultsCtx

abbrev pub InitStakeVaultsCtx : Type 0
InitStakeVaultsCtx = InitVaultsCtx

-- The constraints of each context, at the mint that the config names for its vaults.
init_accounts : InitVaultsCtx → Pubkey → Result (Unit {0})
init_accounts ctx mint = do
  require (ctx.config.authority == ctx.authority) unauthorized
  require (mint == ctx.mint) token_program_mismatch
  require (ctx.token_program == ctx.config.token_program) token_program_mismatch

module _ {T : Type 0} (rt : Runtime T) (tokens : T) where
  mark_initialized : Config → ℕ → Result (Done T (Unit {0}) VaultGroupInitialized)
  mark_initialized config flag = do
    require (bit_and config.vault_flags flag == 0) vault_already_initialized
    let flags = bit_or config.vault_flags flag
    ok (record {
      config = record config { vault_flags = flags };
      account = tt;
      tokens = tokens;
      event = record { config = rt.config_key; flag = flag; vault_flags = flags };
    })

  unfoldable pub init_collateral_vault :
      InitVaultsCtx → Result (Done T (Unit {0}) VaultGroupInitialized)
  unfolding init_accounts mark_initialized
  init_collateral_vault ctx = do
    init_accounts ctx ctx.config.collateral_mint
    mark_initialized ctx.config vault_flag_collateral

  unfoldable pub init_bond_vaults :
      InitBondVaultsCtx → Result (Done T (Unit {0}) VaultGroupInitialized)
  unfolding init_accounts mark_initialized
  init_bond_vaults ctx = do
    init_accounts ctx ctx.config.bond_mint
    mark_initialized ctx.config vault_flag_bond

  unfoldable pub init_funding_vaults :
      InitVaultsCtx → Result (Done T (Unit {0}) VaultGroupInitialized)
  unfolding init_accounts mark_initialized
  init_funding_vaults ctx = do
    init_accounts ctx ctx.config.synthetic_mint
    mark_initialized ctx.config vault_flag_funding

  unfoldable pub init_stake_vaults :
      InitVaultsCtx → Result (Done T (Unit {0}) VaultGroupInitialized)
  unfolding init_accounts mark_initialized
  init_stake_vaults ctx = do
    init_accounts ctx ctx.config.synthetic_mint
    mark_initialized ctx.config vault_flag_stake
