-- ===== src/Keepers/Tracked.antt =====
-- How the config's counts follow the keepers, through every handler of
-- programs/poyz/src/instructions/keeper.rs.
use plott.Common.{ℕ, ◌+◌, ◌-◌, ◌≡◌, Bool, true, false, leb, ok, arith}
use plott.Common.Int.{ℤ, pos}
use plott.State.{Config, Keeper}
use plott.State.Keys.{Pubkey, Hash}
use plott.Runtime.{Runtime, Clock, Done}
use plott.Events.Keepers.{KeeperRegistered, KeeperBonded, KeeperUnbonded, KeeperSlashed}
use plott.Keepers.Accounts.{KeeperRegisterCtx, KeeperBondCtx, KeeperSlashCtx}
use plott.Keepers.{set_active, keeper_register, keeper_bond, keeper_unbond, keeper_slash}

-- A keeper's share of the keeper count.
abbrev pub counted : Bool → ℕ
counted true = 1
counted false = 0

-- What each handler keeps, from one config and keeper to the next: the keeper is active exactly when it
-- holds the minimum bond, the bonded and slashed totals move as the keeper's own, so does the
-- keeper count, down to 0, and nothing else of the config moves.
pub record Tracked (config config' : Config) (keeper keeper' : Keeper) : Type 0 where
  pub owner : keeper'.keeper ≡ keeper.keeper
  pub active : keeper'.active ≡ leb config.min_keeper_bond keeper'.bonded
  pub bonded : config'.bonded_total + keeper.bonded ≡ config.bonded_total + keeper'.bonded
  pub slashed : config'.slashed_total + keeper.slashed ≡ config.slashed_total + keeper'.slashed
  pub count :
      config'.keeper_count ≡ config.keeper_count + counted keeper'.active - counted keeper.active
  pub frame : config' ≡ record config {
    bonded_total = config'.bonded_total;
    slashed_total = config'.slashed_total;
    keeper_count = config'.keeper_count;
  }

-- The account of a keeper that has just been made, before its bond is recorded.
abbrev pub unregistered : Pubkey → ℤ → Keeper
unregistered keeper now = record {
  keeper = keeper;
  bonded = 0;
  slashed = 0;
  proofs_committed = 0;
  registered_at = now;
  last_proof_at = pos 0;
  last_proof_slot = 0;
  last_bond_at = now;
  active = false;
}

module _ {T : Type 0} (rt : Runtime T) (tokens : T) (clock : Clock) where
  pub keeper_register-Tracked :
      (ctx : KeeperRegisterCtx) (amount : ℕ) (d : Done T Keeper KeeperRegistered)
      → keeper_register rt tokens clock ctx amount ≡ ok d
      → Tracked ctx.config d.config (unregistered ctx.keeper clock.unix_timestamp) d.account
  unfolding keeper_register set_active
  keeper_register-Tracked ctx amount d h = record {
    owner = ground arith;
    active = ground arith;
    bonded = ground arith;
    slashed = ground arith;
    count = ground arith;
    frame = ground arith;
  }

  pub keeper_bond-Tracked :
      (ctx : KeeperBondCtx) (amount : ℕ) (d : Done T Keeper KeeperBonded)
      → keeper_bond rt tokens clock ctx amount ≡ ok d
      → Tracked ctx.config d.config ctx.keeper_account d.account
  unfolding keeper_bond set_active
  keeper_bond-Tracked ctx amount d h = record {
    owner = ground arith;
    active = ground arith;
    bonded = ground arith;
    slashed = ground arith;
    count = ground arith;
    frame = ground arith;
  }

  -- When bond is withdrawn, the keeper stays active exactly if the minimum is left, the totals and the
  -- keeper count follow, and nothing else of the config moves.
  pub keeper_unbond-Tracked :
      (ctx : KeeperBondCtx) (amount : ℕ) (d : Done T Keeper KeeperUnbonded)
      → keeper_unbond rt tokens clock ctx amount ≡ ok d
      → Tracked ctx.config d.config ctx.keeper_account d.account
  unfolding keeper_unbond set_active
  keeper_unbond-Tracked ctx amount d h = record {
    owner = ground arith;
    active = ground arith;
    bonded = ground arith;
    slashed = ground arith;
    count = ground arith;
    frame = ground arith;
  }

  -- When bond is slashed, the keeper stays active exactly if the minimum is left, the bonded and slashed
  -- totals and the keeper count follow, and nothing else of the config moves.
  pub keeper_slash-Tracked :
      (ctx : KeeperSlashCtx) (amount reason : ℕ) (evidence : Hash) (d : Done T Keeper KeeperSlashed)
      → keeper_slash rt tokens clock ctx amount reason evidence ≡ ok d
      → Tracked ctx.config d.config ctx.keeper_account d.account
  unfolding keeper_slash set_active
  keeper_slash-Tracked ctx amount reason evidence d h = record {
    owner = ground arith;
    active = ground arith;
    bonded = ground arith;
    slashed = ground arith;
    count = ground arith;
    frame = ground arith;
  }
