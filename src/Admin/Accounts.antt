-- ===== src/Admin/Accounts.antt =====
-- The account contexts of programs/poyz/src/instructions/admin.rs and who may sign.
use plott.Common.{
  Bool, not, ◌&&◌, ◌||◌, ◌==◌, leb, if◌then◌else◌, Option, Result, ok, ◌>>=◌, ◌>>◌, require, ok_or,
  poyz, unauthorized, guardian_cannot_unpause, vaults_not_ready, not_authorized_reporter,
  keeper_inactive, insufficient_bond,
}
use plott.State.{Config, Keeper, vaults_ready}
use plott.State.Keys.{Pubkey}
use plott.Pyth.{AccountInfo}

pub record InitializeCtx : Type 0 where
  pub authority : Pubkey
  pub collateral_mint : Pubkey
  pub synthetic_mint : Pubkey
  pub bond_mint : Pubkey
  pub oracle : AccountInfo
  pub token_program : Pubkey

-- `AdminOnly`, and `SetOracle` with its oracle account passed beside it.
pub record AdminOnly : Type 0 where
  pub authority : Pubkey
  pub config : Config

-- `SetPaused`, and `AcceptAuthority`, whose signer is called `pending_authority` there.
pub record SignerCtx : Type 0 where
  pub signer : Pubkey
  pub config : Config

-- `SetOracle`, less its oracle account.
abbrev pub SetOracleCtx : Type 0
SetOracleCtx = AdminOnly

-- `AcceptAuthority`
abbrev pub AcceptAuthorityCtx : Type 0
AcceptAuthorityCtx = SignerCtx

pub record ReportVenueStateCtx : Type 0 where
  pub signer : Pubkey
  pub config : Config
  pub keeper_account : Option Keeper

unfoldable pub admin_accounts : AdminOnly → Result (Unit {0})
admin_accounts ctx = require (ctx.config.authority == ctx.authority) unauthorized

-- Who may report: the authority, or the signer's own keeper if it is active and bonded.
unfoldable pub check_reporter : ReportVenueStateCtx → Result (Unit {0})
check_reporter ctx = if ctx.signer == ctx.config.authority then ok tt else (do
  keeper ← ok_or ctx.keeper_account (poyz not_authorized_reporter)
  require (keeper.keeper == ctx.signer) not_authorized_reporter
  require keeper.active keeper_inactive
  require (leb ctx.config.min_keeper_bond keeper.bonded) insufficient_bond)

-- The guardian may only set a flag, and a flag that is cleared wants the vaults.
unfoldable pub check_pause : SignerCtx → Bool → Bool → Result (Unit {0})
check_pause ctx mint_paused redeem_paused = do
  let config = ctx.config
  let is_authority = ctx.signer == config.authority
  require (is_authority || ctx.signer == config.guardian) unauthorized
  require
      (is_authority
        || ((mint_paused || not config.mint_paused) && (redeem_paused || not config.redeem_paused)))
      guardian_cannot_unpause
  require ((mint_paused && redeem_paused) || vaults_ready config) vaults_not_ready
