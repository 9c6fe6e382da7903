-- ===== src/Keepers.antt =====
-- Keeper registration, bonding, unbonding and slashing (programs/poyz/src/instructions/keeper.rs).
pub mod Accounts
pub mod Tracked
pub mod Bonds
pub mod Books
mod Tests
use plott.Common.{
  ℕ, ◌+◌, ◌-◌, Bool, true, false, not, ◌&&◌, ◌||◌, ◌==◌, ltb, leb, if◌then◌else◌, Result, ok, ◌>>=◌,
  ◌>>◌, require, insufficient_bond, zero_amount, slash_exceeds_bond, unbond_cooldown_active,
  bond_below_minimum, empty_proof_hash, unknown_slash_reason,
}
use plott.Common.Int.{ℤ, pos, leb_ℤ, ltb_ℤ}
use plott.Common.Checked.{checked_add, checked_sub, checked_sub_ℤ}
use plott.State.{Config, Keeper}
use plott.State.Keys.{Hash, zero_hash}
use plott.State.Limits.{slash_reason_delta_out_of_band, slash_reason_max}
use plott.Runtime.{
  Runtime, Clock, Done, wallet, vault, bond_vault, buffer_bond_vault, deposit, withdraw,
}
use plott.Events.Keepers.{KeeperRegistered, KeeperBonded, KeeperUnbonded, KeeperSlashed}
use Accounts.{
  KeeperRegisterCtx, KeeperBondCtx, KeeperUnbondCtx, KeeperSlashCtx, keeper_register_accounts,
  keeper_bond_accounts, keeper_slash_accounts,
}

-- `bool == bool`
abbrev pub bool_eq : Bool → Bool → Bool
bool_eq true b = b
bool_eq false b = not b

-- The keeper count follows the active flag. `saturating_sub` is the subtraction of ℕ.
pub set_active : Config → Keeper → Bool → Result (Config × Keeper)
set_active config keeper active =
    let flagged = record keeper { active = active } in
    if bool_eq keeper.active active
    then ok (config, keeper)
    else if active
    then (do
      count ← checked_add 32 config.keeper_count 1
      ok (record config { keeper_count = count }, flagged))
    else ok (record config { keeper_count = config.keeper_count - 1 }, flagged)

-- The cooldown runs from the last proof, if there is one.
pub check_cooldown : Config → Keeper → ℤ → Result (Unit {0})
check_cooldown config keeper now =
    if ltb_ℤ (pos 0) keeper.last_proof_at
    then (do
      elapsed ← checked_sub_ℤ 63 now keeper.last_proof_at
      require (leb_ℤ (pos config.unbond_cooldown_sec) elapsed) unbond_cooldown_active)
    else ok tt

module _ {T : Type 0} (rt : Runtime T) (tokens : T) (clock : Clock) where
  unfoldable pub keeper_register : KeeperRegisterCtx → ℕ → Result (Done T Keeper KeeperRegistered)
  unfolding keeper_register_accounts set_active
  keeper_register ctx bond_amount = do
    keeper_register_accounts ctx
    require (leb ctx.config.min_keeper_bond bond_amount) insufficient_bond
    tokens' ←
        deposit rt tokens ctx.keeper_bond_source ctx.bond_mint bond_vault ctx.keeper bond_amount
    let now = clock.unix_timestamp
    bonded_total ← checked_add 64 ctx.config.bonded_total bond_amount
    (config, keeper_account) ←
        set_active (record ctx.config { bonded_total = bonded_total })
          (record {
            keeper = ctx.keeper;
            bonded = bond_amount;
            slashed = 0;
            proofs_committed = 0;
            registered_at = now;
            last_proof_at = pos 0;
            last_proof_slot = 0;
            last_bond_at = now;
            active = false;
          })
          true
    ok (record {
      config = config;
      account = keeper_account;
      tokens = tokens';
      event = record {
        config = rt.config_key;
        keeper = ctx.keeper;
        bonded = bond_amount;
        keeper_count = config.keeper_count;
        timestamp = now;
      };
    })

  pub keeper_bond : KeeperBondCtx → ℕ → Result (Done T Keeper KeeperBonded)
  unfolding keeper_bond_accounts set_active
  keeper_bond ctx amount = do
    keeper_bond_accounts ctx
    require (ltb 0 amount) zero_amount
    tokens' ← deposit rt tokens ctx.keeper_bond_wallet ctx.bond_mint bond_vault ctx.keeper amount
    bonded ← checked_add 64 ctx.keeper_account.bonded amount
    bonded_total ← checked_add 64 ctx.config.bonded_total amount
    (config, keeper_account) ←
        set_active (record ctx.config { bonded_total = bonded_total })
          (record ctx.keeper_account { bonded = bonded; last_bond_at = clock.unix_timestamp })
          (leb ctx.config.min_keeper_bond bonded)
    ok (record {
      config = config;
      account = keeper_account;
      tokens = tokens';
      event = record {
        config = rt.config_key;
        keeper = keeper_account.keeper;
        added = amount;
        bonded = bonded;
        active = keeper_account.active;
      };
    })

  pub keeper_unbond : KeeperUnbondCtx → ℕ → Result (Done T Keeper KeeperUnbonded)
  unfolding keeper_bond_accounts check_cooldown set_active
  keeper_unbond ctx amount = do
    keeper_bond_accounts ctx
    require (ltb 0 amount) zero_amount
    require (leb amount ctx.keeper_account.bonded) slash_exceeds_bond
    check_cooldown ctx.config ctx.keeper_account clock.unix_timestamp
    remaining ← checked_sub ctx.keeper_account.bonded amount
    require (remaining == 0 || leb ctx.config.min_keeper_bond remaining) bond_below_minimum
    tokens' ← withdraw rt tokens bond_vault ctx.bond_mint (wallet ctx.keeper_bond_wallet) amount
    bonded_total ← checked_sub ctx.config.bonded_total amount
    (config, keeper_account) ←
        set_active (record ctx.config { bonded_total = bonded_total })
          (record ctx.keeper_account { bonded = remaining })
          (leb ctx.config.min_keeper_bond remaining)
    ok (record {
      config = config;
      account = keeper_account;
      tokens = tokens';
      event = record {
        config = rt.config_key;
        keeper = keeper_account.keeper;
        withdrawn = amount;
        bonded = remaining;
        active = keeper_account.active;
      };
    })

  pub keeper_slash : KeeperSlashCtx → ℕ → ℕ → Hash → Result (Done T Keeper KeeperSlashed)
  unfolding keeper_slash_accounts set_active
  keeper_slash ctx amount reason_code evidence_hash = do
    keeper_slash_accounts ctx
    require (ltb 0 amount) zero_amount
    require (leb amount ctx.keeper_account.bonded) slash_exceeds_bond
    require (not (evidence_hash == zero_hash)) empty_proof_hash
    require (leb slash_reason_delta_out_of_band reason_code && leb reason_code slash_reason_max)
        unknown_slash_reason
    tokens' ← withdraw rt tokens bond_vault ctx.bond_mint (vault buffer_bond_vault) amount
    bonded ← checked_sub ctx.keeper_account.bonded amount
    slashed ← checked_add 64 ctx.keeper_account.slashed amount
    bonded_total ← checked_sub ctx.config.bonded_total amount
    slashed_total ← checked_add 64 ctx.config.slashed_total amount
    (config, keeper_account) ←
        set_active
          (record ctx.config { bonded_total = bonded_total; slashed_total = slashed_total })
          (record ctx.keeper_account { bonded = bonded; slashed = slashed })
          (leb ctx.config.min_keeper_bond bonded)
    ok (record {
      config = config;
      account = keeper_account;
      tokens = tokens';
      event = record {
        config = rt.config_key;
        keeper = keeper_account.keeper;
        slashed = amount;
        bonded = bonded;
        active = keeper_account.active;
        reason_code = reason_code;
        evidence_hash = evidence_hash;
      };
    })
