-- ===== src/Program/Administer.antt =====
-- The instructions that write the config account alone (the sections "protocol configuration" and "vault
-- creation" of programs/poyz/src/lib.rs).
pub mod Kept
use plott.Common.{
  ℕ, ◌≡◌, ◌∙◌, Bool, Option, none, some, List, Result, ok, ok_or, account_not_initialized, ◌>>=◌,
  Result-cases,
}
use plott.Common.Int.{ℤ}
use plott.State.{Config, Keeper}
use plott.State.Keys.{Pubkey, Hash}
use plott.Pyth.{AccountInfo}
use plott.Runtime.{Runtime, Clock}
use plott.Admin.Params.{UpdateParams}
use plott.Admin.Accounts.{AdminOnly, SignerCtx, ReportVenueStateCtx}
use plott.Admin
use plott.Vaults.{InitVaultsCtx}
use plott.Vaults
use plott.Program.Store.{find}
use plott.Program.World.{is_keeper}

pub data Administration : Type 0 where
  set_params : AdminOnly → UpdateParams → Administration
  set_paused : SignerCtx → Bool → Bool → Administration
  set_guardian : AdminOnly → Pubkey → Administration
  report_venue_state : ReportVenueStateCtx → ℕ → ℤ → ℕ → Administration
  set_oracle : AdminOnly → AccountInfo → Hash → Administration
  transfer_authority : AdminOnly → Pubkey → Administration
  accept_authority : SignerCtx → Administration
  init_collateral_vault init_bond_vaults init_funding_vaults init_stake_vaults :
      InitVaultsCtx → Administration

-- An account that the caller names must exist.
abbrev pub loaded : {A : Type 0} → Option A → Result A
loaded account = ok_or account account_not_initialized

-- `Option<Account<Keeper>>`: the signer's own keeper account, if the caller passes it.
abbrev pub optional : {A : Type 0} → Option A → Option A → Result (Option A)
optional none found = ok none
optional (some passed) found = do account ← loaded found; ok (some account)

module _ {T : Type 0} (rt : Runtime T) (tokens : T) (clock : Clock) (keepers : List Keeper) where
  unfoldable pub administer : Config → Administration → Result Config
  administer config (set_params ctx params) = do
    d ← Admin.set_params rt tokens clock (record ctx { config = config }) params
    ok d.config
  administer config (set_paused ctx mint redeem) = do
    d ← Admin.set_paused rt tokens clock (record ctx { config = config }) mint redeem
    ok d.config
  administer config (set_guardian ctx guardian) = do
    d ← Admin.set_guardian rt tokens clock (record ctx { config = config }) guardian
    ok d.config
  administer config (report_venue_state ctx venue_id net capacity) = do
    keeper ← optional ctx.keeper_account (find (is_keeper ctx.signer) keepers)
    d ←
        Admin.report_venue_state rt tokens clock
          (record ctx { config = config; keeper_account = keeper }) venue_id net capacity
    ok d.config
  administer config (set_oracle ctx oracle feed_id) = do
    d ← Admin.set_oracle rt tokens clock (record ctx { config = config }) oracle feed_id
    ok d.config
  administer config (transfer_authority ctx next) = do
    d ← Admin.transfer_authority rt tokens clock (record ctx { config = config }) next
    ok d.config
  administer config (accept_authority ctx) = do
    d ← Admin.accept_authority rt tokens clock (record ctx { config = config })
    ok d.config
  administer config (init_collateral_vault ctx) = do
    d ← Vaults.init_collateral_vault rt tokens (record ctx { config = config })
    ok d.config
  administer config (init_bond_vaults ctx) = do
    d ← Vaults.init_bond_vaults rt tokens (record ctx { config = config })
    ok d.config
  administer config (init_funding_vaults ctx) = do
    d ← Vaults.init_funding_vaults rt tokens (record ctx { config = config })
    ok d.config
  administer config (init_stake_vaults ctx) = do
    d ← Vaults.init_stake_vaults rt tokens (record ctx { config = config })
    ok d.config
