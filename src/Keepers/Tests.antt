-- ===== src/Keepers/Tests.antt =====
-- Runs of the handlers of programs/poyz/src/instructions/keeper.rs on the accounts of Examples/Setup, and
-- the theorems of this component there.
use plott.Common.{◌+◌, ◌≤◌, ◌≡◌, refl, ◌≢◌, ◌⊎◌, true, false, ok}
use plott.Common.Int.{pos, ◌-ℤ◌, ◌≤ℤ◌}
use plott.State.Keys.{zero_hash}
use plott.Examples.{is_ok, value_of, ok-value_of}
use plott.Examples.Setup.{config, update, rt, clock, tokens, account_of, keeper}
use plott.Examples.Ledger.{Tokens, runtime-TokenLaws}
use plott.State.{Keeper}
use plott.Runtime.{Done, Wallet, vault, wallet, bond_vault, buffer_bond_vault}
use plott.Events.Keepers.{KeeperRegistered, KeeperBonded, KeeperUnbonded, KeeperSlashed}
use plott.Keepers.Accounts.{KeeperRegisterCtx, KeeperBondCtx, KeeperSlashCtx}
use plott.Keepers.Bonds.{keeper_slash-vaults, keeper_unbond-vault}
use plott.Keepers.{keeper_register, keeper_bond, keeper_unbond, keeper_slash}

abbrev register_ctx : KeeperRegisterCtx
register_ctx = record {
  keeper = 201;
  config = config;
  bond_mint = 22;
  keeper_bond_source = account_of 201 22;
  token_program = 5;
}

abbrev bond_ctx : KeeperBondCtx
bond_ctx = record {
  keeper = 200;
  config = config;
  keeper_account = keeper;
  bond_mint = 22;
  keeper_bond_wallet = account_of 200 22;
  token_program = 5;
}

abbrev slash_ctx : KeeperSlashCtx
slash_ctx = record {
  authority = 10;
  config = config;
  keeper_account = keeper;
  bond_mint = 22;
  token_program = 5;
}

register_runs : is_ok (keeper_register rt tokens clock register_ctx 500) ≡ true
unfolding keeper_register
register_runs = refl

abbrev register_done : Done Tokens Keeper KeeperRegistered
register_done = value_of (keeper_register rt tokens clock register_ctx 500) register_runs

register_ok : keeper_register rt tokens clock register_ctx 500 ≡ ok register_done
register_ok = ok-value_of (keeper_register rt tokens clock register_ctx 500) register_runs

bond_runs : is_ok (keeper_bond rt tokens clock bond_ctx 50) ≡ true
unfolding keeper_bond
bond_runs = refl

abbrev bond_done : Done Tokens Keeper KeeperBonded
bond_done = value_of (keeper_bond rt tokens clock bond_ctx 50) bond_runs

bond_ok : keeper_bond rt tokens clock bond_ctx 50 ≡ ok bond_done
bond_ok = ok-value_of (keeper_bond rt tokens clock bond_ctx 50) bond_runs

unbond_runs : is_ok (keeper_unbond rt tokens clock bond_ctx 1_000) ≡ true
unfolding keeper_unbond ◌-ℤ◌
unbond_runs = refl

abbrev unbond_done : Done Tokens Keeper KeeperUnbonded
unbond_done = value_of (keeper_unbond rt tokens clock bond_ctx 1_000) unbond_runs

unbond_ok : keeper_unbond rt tokens clock bond_ctx 1_000 ≡ ok unbond_done
unbond_ok = ok-value_of (keeper_unbond rt tokens clock bond_ctx 1_000) unbond_runs

slash_runs : is_ok (keeper_slash rt tokens clock slash_ctx 600 2 99) ≡ true
unfolding keeper_slash
slash_runs = refl

abbrev slash_done : Done Tokens Keeper KeeperSlashed
slash_done = value_of (keeper_slash rt tokens clock slash_ctx 600 2 99) slash_runs

slash_ok : keeper_slash rt tokens clock slash_ctx 600 2 99 ≡ ok slash_done
slash_ok = ok-value_of (keeper_slash rt tokens clock slash_ctx 600 2 99) slash_runs

-- A slash below the minimum takes the keeper off the count; a part of the bond below it cannot stay.
slash_counts : slash_done.config.keeper_count ≡ 0
unfolding keeper_slash
slash_counts = refl

unbond_part : is_ok (keeper_unbond rt tokens clock bond_ctx 501) ≡ false
unfolding keeper_unbond ◌-ℤ◌
unbond_part = refl

unbond_hot :
    is_ok (keeper_unbond rt tokens (record clock { unix_timestamp = pos 899 }) bond_ctx 1_000)
    ≡ false
unfolding keeper_unbond ◌-ℤ◌
unbond_hot = refl

keeper_slash-vaults_example :
    (slash_ctx.authority ≡ slash_ctx.config.authority)
    × (99 ≢ zero_hash)
    × (1 ≤ 2)
    × (2 ≤ 5)
    × (slash_done.account.bonded + 600 ≡ slash_ctx.keeper_account.bonded)
    × (rt.balance tokens (vault bond_vault) ≡ rt.balance slash_done.tokens (vault bond_vault) + 600)
    × (rt.balance slash_done.tokens (vault buffer_bond_vault)
        ≡ rt.balance tokens (vault buffer_bond_vault) + 600)
    × (rt.balance slash_done.tokens (vault bond_vault) + slash_ctx.config.bonded_total
        ≡ rt.balance tokens (vault bond_vault) + slash_done.config.bonded_total)
    × (rt.balance slash_done.tokens (vault buffer_bond_vault) + slash_ctx.config.slashed_total
        ≡ rt.balance tokens (vault buffer_bond_vault) + slash_done.config.slashed_total)
    × ((w : Wallet) → rt.balance slash_done.tokens (wallet w) ≡ rt.balance tokens (wallet w))
keeper_slash-vaults_example =
    keeper_slash-vaults rt tokens clock slash_ctx 600 2 99 slash_done slash_ok
      (runtime-TokenLaws update)

keeper_unbond-vault_example :
    (bond_ctx.keeper_bond_wallet.authority ≡ bond_ctx.keeper_account.keeper)
    × (unbond_done.account.bonded + 1_000 ≡ bond_ctx.keeper_account.bonded)
    × ((unbond_done.account.bonded ≡ 0)
        ⊎ (bond_ctx.config.min_keeper_bond ≤ unbond_done.account.bonded))
    × ((bond_ctx.keeper_account.last_proof_at ≤ℤ pos 0)
        ⊎ (pos bond_ctx.config.unbond_cooldown_sec
            ≤ℤ clock.unix_timestamp -ℤ bond_ctx.keeper_account.last_proof_at))
    × (rt.balance unbond_done.tokens (vault bond_vault) + bond_ctx.config.bonded_total
        ≡ rt.balance tokens (vault bond_vault) + unbond_done.config.bonded_total)
keeper_unbond-vault_example =
    keeper_unbond-vault rt tokens clock bond_ctx 1_000 unbond_done unbond_ok
      (runtime-TokenLaws update)
