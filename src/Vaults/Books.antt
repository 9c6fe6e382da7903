-- ===== src/Vaults/Books.antt =====
-- What the instructions of programs/poyz/src/instructions/vaults.rs leave alone.
use plott.Common.{◌≡◌, ok, arith}
use plott.State.Ledger.{ledger_of}
use plott.Admin.Books.{bounds_of}
use plott.Runtime.{Runtime, Done}
use plott.Events.Admin.{VaultGroupInitialized}
use plott.Vaults.{
  InitVaultsCtx, init_collateral_vault, init_bond_vaults, init_funding_vaults, init_stake_vaults,
}

module _ {T : Type 0} (rt : Runtime T) (tokens : T) (ctx : InitVaultsCtx)
    (d : Done T (Unit {0}) VaultGroupInitialized) where
  pub init_collateral_vault-kept :
      init_collateral_vault rt tokens ctx ≡ ok d
      → (ledger_of d.config ≡ ledger_of ctx.config) × (bounds_of d.config ≡ bounds_of ctx.config)
  unfolding init_collateral_vault
  init_collateral_vault-kept h = ground arith

  pub init_bond_vaults-kept :
      init_bond_vaults rt tokens ctx ≡ ok d
      → (ledger_of d.config ≡ ledger_of ctx.config) × (bounds_of d.config ≡ bounds_of ctx.config)
  unfolding init_bond_vaults
  init_bond_vaults-kept h = ground arith

  pub init_funding_vaults-kept :
      init_funding_vaults rt tokens ctx ≡ ok d
      → (ledger_of d.config ≡ ledger_of ctx.config) × (bounds_of d.config ≡ bounds_of ctx.config)
  unfolding init_funding_vaults
  init_funding_vaults-kept h = ground arith

  pub init_stake_vaults-kept :
      init_stake_vaults rt tokens ctx ≡ ok d
      → (ledger_of d.config ≡ ledger_of ctx.config) × (bounds_of d.config ≡ bounds_of ctx.config)
  unfolding init_stake_vaults
  init_stake_vaults-kept h = ground arith
