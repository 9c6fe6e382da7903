-- ===== src/Vaults/Flags.antt =====
-- What the flags of `mark_initialized` (programs/poyz/src/instructions/vaults.rs) say of the vaults.
use plott.Common.{◌≡◌, true, false, ok, arith}
use plott.State.{vaults_ready}
use plott.Runtime.{Runtime, Done}
use plott.Events.Admin.{VaultGroupInitialized}
use plott.Vaults.{
  InitVaultsCtx, init_collateral_vault, init_bond_vaults, init_funding_vaults, init_stake_vaults,
}

module _ {T : Type 0} (rt : Runtime T) (tokens : T) (ctx : InitVaultsCtx) where
  -- From a config without vaults, the four instructions in the order of the documentation leave the
  -- config ready, and it is not ready before the last of them.
  pub init_vaults-vaults_ready :
      (a b c d : Done T (Unit {0}) VaultGroupInitialized)
      → ctx.config.vault_flags ≡ 0
      → init_collateral_vault rt tokens ctx ≡ ok a
      → init_bond_vaults rt tokens (record ctx { config = a.config; mint = ctx.config.bond_mint })
        ≡ ok b
      → init_funding_vaults rt tokens
          (record ctx { config = b.config; mint = ctx.config.synthetic_mint })
        ≡ ok c
      → init_stake_vaults rt tokens
          (record ctx { config = c.config; mint = ctx.config.synthetic_mint })
        ≡ ok d
      → (vaults_ready c.config ≡ false) × (vaults_ready d.config ≡ true)
  unfolding init_collateral_vault init_bond_vaults init_funding_vaults init_stake_vaults
      vaults_ready
  init_vaults-vaults_ready a b c d z ha hb hc hd = ground arith
