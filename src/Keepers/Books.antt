-- ===== src/Keepers/Books.antt =====
-- What the handlers of programs/poyz/src/instructions/keeper.rs write into the books, in full.
use plott.Common.{ℕ, ◌+◌, ◌≡◌, ap, some, ok, arith, ◌^◌, ◌<◌}
use plott.State.{Config, Keeper}
use plott.State.Keys.{Hash}
use plott.State.Ledger.{ledger_of}
use plott.State.Settings.{settings_of}
use plott.Runtime.{Runtime, Clock, Done, vault, wallet, bond_vault}
use plott.Events.Keepers.{KeeperRegistered, KeeperBonded, KeeperUnbonded, KeeperSlashed}
use plott.Keepers.Accounts.{KeeperRegisterCtx, KeeperBondCtx, KeeperSlashCtx}
use plott.Keepers.Tracked.{Tracked}
use plott.Keepers.{set_active, keeper_register, keeper_bond, keeper_unbond, keeper_slash}

pub Tracked-ledger :
    {c c' : Config} {k k' : Keeper}
    → Tracked c c' k k'
    → ledger_of c' ≡ record (ledger_of c) {
      bonded_total = c'.bonded_total;
      slashed_total = c'.slashed_total;
      keeper_count = c'.keeper_count;
    }
Tracked-ledger tracked = ap ledger_of tracked.frame

pub Tracked-settings :
    {c c' : Config} {k k' : Keeper} → Tracked c c' k k' → settings_of c' ≡ settings_of c
Tracked-settings tracked = ap settings_of tracked.frame

pub register_moved :
    {T : Type 0} (rt : Runtime T) (tokens : T) (clock : Clock) (ctx : KeeperRegisterCtx)
    (amount : ℕ) (d : Done T Keeper KeeperRegistered)
    → keeper_register rt tokens clock ctx amount ≡ ok d
    → rt.transfer_checked tokens
        (wallet ctx.keeper_bond_source)
        ctx.bond_mint
        (vault bond_vault)
        ctx.keeper
        amount
        (rt.mint_account tokens ctx.bond_mint).decimals
      ≡ some d.tokens
unfolding keeper_register
register_moved rt tokens clock ctx amount d done = ground arith

pub keeper_register-ledger :
    {T : Type 0} (rt : Runtime T) (tokens : T) (clock : Clock) (ctx : KeeperRegisterCtx)
    (amount : ℕ) (d : Done T Keeper KeeperRegistered)
    → keeper_register rt tokens clock ctx amount ≡ ok d
    → ledger_of d.config ≡ record (ledger_of ctx.config) {
      bonded_total = ctx.config.bonded_total + amount;
      keeper_count = d.config.keeper_count;
    }
unfolding keeper_register set_active
keeper_register-ledger rt tokens clock ctx amount d done = ground arith

pub keeper_bond-ledger :
    {T : Type 0} (rt : Runtime T) (tokens : T) (clock : Clock) (ctx : KeeperBondCtx) (amount : ℕ)
    (d : Done T Keeper KeeperBonded)
    → keeper_bond rt tokens clock ctx amount ≡ ok d
    → ledger_of d.config ≡ record (ledger_of ctx.config) {
      bonded_total = ctx.config.bonded_total + amount;
      keeper_count = d.config.keeper_count;
    }
unfolding keeper_bond set_active
keeper_bond-ledger rt tokens clock ctx amount d done = ground arith

pub keeper_unbond-ledger :
    {T : Type 0} (rt : Runtime T) (tokens : T) (clock : Clock) (ctx : KeeperBondCtx) (amount : ℕ)
    (d : Done T Keeper KeeperUnbonded)
    → keeper_unbond rt tokens clock ctx amount ≡ ok d
    → (ledger_of d.config ≡ record (ledger_of ctx.config) {
      bonded_total = d.config.bonded_total;
      keeper_count = d.config.keeper_count;
    })
      × (d.config.bonded_total + amount ≡ ctx.config.bonded_total)
unfolding keeper_unbond set_active
keeper_unbond-ledger rt tokens clock ctx amount d done = ground arith

pub keeper_slash-ledger :
    {T : Type 0} (rt : Runtime T) (tokens : T) (clock : Clock) (ctx : KeeperSlashCtx)
    (amount reason : ℕ) (evidence : Hash) (d : Done T Keeper KeeperSlashed)
    → keeper_slash rt tokens clock ctx amount reason evidence ≡ ok d
    → (ledger_of d.config ≡ record (ledger_of ctx.config) {
      bonded_total = d.config.bonded_total;
      slashed_total = ctx.config.slashed_total + amount;
      keeper_count = d.config.keeper_count;
    })
      × (d.config.bonded_total + amount ≡ ctx.config.bonded_total)
unfolding keeper_slash set_active
keeper_slash-ledger rt tokens clock ctx amount reason evidence d done = ground arith

module _ {T : Type 0} (rt : Runtime T) (tokens : T) (clock : Clock) where
  pub keeper_register-fits :
      (ctx : KeeperRegisterCtx) (amount : ℕ) (d : Done T Keeper KeeperRegistered)
      → keeper_register rt tokens clock ctx amount ≡ ok d
      → ctx.config.keeper_count < 2 ^ 32
      → (d.config.bonded_total < 2 ^ 64) × (d.config.keeper_count < 2 ^ 32)
  unfolding keeper_register set_active
  keeper_register-fits ctx amount d done small = ground arith

  pub keeper_bond-fits :
      (ctx : KeeperBondCtx) (amount : ℕ) (d : Done T Keeper KeeperBonded)
      → keeper_bond rt tokens clock ctx amount ≡ ok d
      → ctx.config.keeper_count < 2 ^ 32
      → (d.config.bonded_total < 2 ^ 64) × (d.config.keeper_count < 2 ^ 32)
  unfolding keeper_bond set_active
  keeper_bond-fits ctx amount d done small = ground arith

  pub keeper_unbond-fits :
      (ctx : KeeperBondCtx) (amount : ℕ) (d : Done T Keeper KeeperUnbonded)
      → keeper_unbond rt tokens clock ctx amount ≡ ok d
      → ctx.config.keeper_count < 2 ^ 32
      → d.config.keeper_count < 2 ^ 32
  unfolding keeper_unbond set_active
  keeper_unbond-fits ctx amount d done small = ground arith

  pub keeper_slash-fits :
      (ctx : KeeperSlashCtx) (amount reason : ℕ) (evidence : Hash) (d : Done T Keeper KeeperSlashed)
      → keeper_slash rt tokens clock ctx amount reason evidence ≡ ok d
      → ctx.config.keeper_count < 2 ^ 32
      → (d.config.slashed_total < 2 ^ 64) × (d.config.keeper_count < 2 ^ 32)
  unfolding keeper_slash set_active
  keeper_slash-fits ctx amount reason evidence d done small = ground arith
