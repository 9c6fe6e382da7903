-- ===== src/Vaults/Tests.antt =====
-- A run of the instructions of programs/poyz/src/instructions/vaults.rs, and their theorem there.
use plott.Common.{◌≡◌, refl, true, false, ok}
use plott.Examples.{is_ok, value_of, ok-value_of}
use plott.Examples.Setup.{config, rt, tokens}
use plott.Examples.Ledger.{Tokens}
use plott.Runtime.{Done}
use plott.Events.Admin.{VaultGroupInitialized}
use plott.Vaults.{
  InitVaultsCtx, init_collateral_vault, init_bond_vaults, init_funding_vaults, init_stake_vaults,
}

abbrev fresh_ctx : InitVaultsCtx
fresh_ctx = record {
  authority = 10;
  config = record config { vault_flags = 0 };
  mint = 20;
  token_program = 5;
}

collateral_runs : is_ok (init_collateral_vault rt tokens fresh_ctx) ≡ true
unfolding init_collateral_vault
collateral_runs = refl

abbrev collateral_done : Done Tokens (Unit {0}) VaultGroupInitialized
collateral_done = value_of (init_collateral_vault rt tokens fresh_ctx) collateral_runs

collateral_ok : init_collateral_vault rt tokens fresh_ctx ≡ ok collateral_done
collateral_ok = ok-value_of (init_collateral_vault rt tokens fresh_ctx) collateral_runs

bond_runs :
    is_ok (
      init_bond_vaults rt tokens
        (record fresh_ctx { config = collateral_done.config; mint = fresh_ctx.config.bond_mint }))
    ≡ true
unfolding init_bond_vaults init_collateral_vault
bond_runs = refl

abbrev bond_done : Done Tokens (Unit {0}) VaultGroupInitialized
bond_done =
    value_of
      (init_bond_vaults rt tokens
        (record fresh_ctx { config = collateral_done.config; mint = fresh_ctx.config.bond_mint }))
      bond_runs

bond_ok :
    init_bond_vaults rt tokens
      (record fresh_ctx { config = collateral_done.config; mint = fresh_ctx.config.bond_mint })
    ≡ ok bond_done
bond_ok =
    ok-value_of
      (init_bond_vaults rt tokens
        (record fresh_ctx { config = collateral_done.config; mint = fresh_ctx.config.bond_mint }))
      bond_runs

funding_runs :
    is_ok (
      init_funding_vaults rt tokens
        (record fresh_ctx { config = bond_done.config; mint = fresh_ctx.config.synthetic_mint }))
    ≡ true
unfolding init_funding_vaults init_bond_vaults init_collateral_vault
funding_runs = refl

abbrev funding_done : Done Tokens (Unit {0}) VaultGroupInitialized
funding_done =
    value_of
      (init_funding_vaults rt tokens
        (record fresh_ctx { config = bond_done.config; mint = fresh_ctx.config.synthetic_mint }))
      funding_runs

funding_ok :
    init_funding_vaults rt tokens
      (record fresh_ctx { config = bond_done.config; mint = fresh_ctx.config.synthetic_mint })
    ≡ ok funding_done
funding_ok =
    ok-value_of
      (init_funding_vaults rt tokens
        (record fresh_ctx { config = bond_done.config; mint = fresh_ctx.config.synthetic_mint }))
      funding_runs

stake_runs :
    is_ok (
      init_stake_vaults rt tokens
        (record fresh_ctx { config = funding_done.config; mint = fresh_ctx.config.synthetic_mint }))
    ≡ true
unfolding init_stake_vaults init_funding_vaults init_bond_vaults init_collateral_vault
stake_runs = refl

abbrev stake_done : Done Tokens (Unit {0}) VaultGroupInitialized
stake_done =
    value_of
      (init_stake_vaults rt tokens
        (record fresh_ctx { config = funding_done.config; mint = fresh_ctx.config.synthetic_mint }))
      stake_runs

stake_ok :
    init_stake_vaults rt tokens
      (record fresh_ctx { config = funding_done.config; mint = fresh_ctx.config.synthetic_mint })
    ≡ ok stake_done
stake_ok =
    ok-value_of
      (init_stake_vaults rt tokens
        (record fresh_ctx { config = funding_done.config; mint = fresh_ctx.config.synthetic_mint }))
      stake_runs

-- A second run of one of them is refused.
bond_again :
    is_ok (
      init_bond_vaults rt tokens
        (record fresh_ctx { config = bond_done.config; mint = fresh_ctx.config.bond_mint }))
    ≡ false
unfolding init_bond_vaults init_collateral_vault
bond_again = refl
