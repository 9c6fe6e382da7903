-- ===== src/Admin/Books.antt =====
-- What the handlers of programs/poyz/src/instructions/admin.rs leave alone: the books, and, but for
-- `set_params`, the bounds of a config.
use plott.Common.{ℕ, ◌≡◌, ap, Bool, ok, arith}
use plott.Common.Int.{ℤ}
use plott.State.{Config}
use plott.State.Keys.{Pubkey, Hash}
use plott.State.Ledger.{ledger_of}
use plott.Pyth.{AccountInfo}
use plott.Runtime.{Runtime, Clock, Done}
use plott.Events.Admin.{
  ParamsUpdated, PauseChanged, GuardianChanged, VenueStateReported, OracleUpdated,
  AuthorityTransferProposed, AuthorityTransferred,
}
use plott.Admin.Params.{UpdateParams}
use plott.Admin.Validated.{IsValidated, set_params-IsValidated}
use plott.Admin.Accounts.{AdminOnly, SignerCtx, ReportVenueStateCtx}
use plott.Admin.{
  set_params, set_paused, set_guardian, report_venue_state, set_oracle, transfer_authority,
  accept_authority,
}

-- The parameters that `validate_config` reads.
pub record Bounds : Type 0 where
  pub max_price_age_sec : ℕ
  pub collateral_ratio_bps : ℕ
  pub delta_exit_bps : ℕ
  pub delta_band_bps : ℕ
  pub delta_hard_bps : ℕ
  pub mint_fee_bps : ℕ
  pub redeem_fee_bps : ℕ
  pub max_conf_bps : ℕ
  pub max_hedge_slippage_bps : ℕ
  pub buffer_share_bps : ℕ
  pub buffer_max_draw_bps : ℕ
  pub max_supply_vs_capacity_bps : ℕ
  pub max_venue_state_age_sec : ℕ
  pub venue_flags : ℕ
  pub min_keeper_bond : ℕ
  pub max_synthetic_supply : ℕ
  pub request_ttl_sec : ℕ

abbrev pub bounds_of : Config → Bounds
bounds_of config = record {
  max_price_age_sec = config.max_price_age_sec;
  collateral_ratio_bps = config.collateral_ratio_bps;
  delta_exit_bps = config.delta_exit_bps;
  delta_band_bps = config.delta_band_bps;
  delta_hard_bps = config.delta_hard_bps;
  mint_fee_bps = config.mint_fee_bps;
  redeem_fee_bps = config.redeem_fee_bps;
  max_conf_bps = config.max_conf_bps;
  max_hedge_slippage_bps = config.max_hedge_slippage_bps;
  buffer_share_bps = config.buffer_share_bps;
  buffer_max_draw_bps = config.buffer_max_draw_bps;
  max_supply_vs_capacity_bps = config.max_supply_vs_capacity_bps;
  max_venue_state_age_sec = config.max_venue_state_age_sec;
  venue_flags = config.venue_flags;
  min_keeper_bond = config.min_keeper_bond;
  max_synthetic_supply = config.max_synthetic_supply;
  request_ttl_sec = config.request_ttl_sec;
}

pub IsValidated-bounds :
    (c c' : Config) → bounds_of c' ≡ bounds_of c → IsValidated c → IsValidated c'
IsValidated-bounds c c' e v = record {
  age = ground (arith, e, v.age);
  ratio = ground (arith, e, v.ratio);
  exit = ground (arith, e, v.exit);
  hard = ground (arith, e, v.hard);
  fees = ground (arith, e, v.fees);
  conf = ground (arith, e, v.conf);
  slippage = ground (arith, e, v.slippage);
  share = ground (arith, e, v.share);
  draw = ground (arith, e, v.draw);
  capacity = ground (arith, e, v.capacity);
  report_age = ground (arith, e, v.report_age);
  venues = ground (arith, e, v.venues);
  bond = ground (arith, e, v.bond);
  supply = ground (arith, e, v.supply);
  ttl = ground (arith, e, v.ttl);
}

module _ {T : Type 0} (rt : Runtime T) (tokens : T) (clock : Clock) where
  pub set_params-ledger :
      (ctx : AdminOnly) (params : UpdateParams) (d : Done T (Unit {0}) ParamsUpdated)
      → set_params rt tokens clock ctx params ≡ ok d
      → ledger_of d.config ≡ ledger_of ctx.config
  set_params-ledger ctx params d h =
      ap ledger_of (set_params-IsValidated rt tokens clock ctx params d h).2

  pub set_paused-kept :
      (ctx : SignerCtx) (mint redeem : Bool) (d : Done T (Unit {0}) PauseChanged)
      → set_paused rt tokens clock ctx mint redeem ≡ ok d
      → (ledger_of d.config ≡ ledger_of ctx.config) × (bounds_of d.config ≡ bounds_of ctx.config)
  unfolding set_paused
  set_paused-kept ctx mint redeem d h = ground arith

  pub set_guardian-kept :
      (ctx : AdminOnly) (guardian : Pubkey) (d : Done T (Unit {0}) GuardianChanged)
      → set_guardian rt tokens clock ctx guardian ≡ ok d
      → (ledger_of d.config ≡ ledger_of ctx.config) × (bounds_of d.config ≡ bounds_of ctx.config)
  unfolding set_guardian
  set_guardian-kept ctx guardian d h = ground arith

  pub report_venue_state-kept :
      (ctx : ReportVenueStateCtx) (venue_id : ℕ) (net : ℤ) (capacity : ℕ)
      (d : Done T (Unit {0}) VenueStateReported)
      → report_venue_state rt tokens clock ctx venue_id net capacity ≡ ok d
      → (ledger_of d.config ≡ ledger_of ctx.config) × (bounds_of d.config ≡ bounds_of ctx.config)
  unfolding report_venue_state
  report_venue_state-kept ctx venue_id net capacity d h = ground arith

  pub set_oracle-kept :
      (ctx : AdminOnly) (oracle : AccountInfo) (feed_id : Hash)
      (d : Done T (Unit {0}) OracleUpdated)
      → set_oracle rt tokens clock ctx oracle feed_id ≡ ok d
      → (ledger_of d.config ≡ ledger_of ctx.config) × (bounds_of d.config ≡ bounds_of ctx.config)
  unfolding set_oracle
  set_oracle-kept ctx oracle feed_id d h = ground arith

  pub transfer_authority-kept :
      (ctx : AdminOnly) (next : Pubkey) (d : Done T (Unit {0}) AuthorityTransferProposed)
      → transfer_authority rt tokens clock ctx next ≡ ok d
      → (ledger_of d.config ≡ ledger_of ctx.config) × (bounds_of d.config ≡ bounds_of ctx.config)
  unfolding transfer_authority
  transfer_authority-kept ctx next d h = ground arith

  pub accept_authority-kept :
      (ctx : SignerCtx) (d : Done T (Unit {0}) AuthorityTransferred)
      → accept_authority rt tokens clock ctx ≡ ok d
      → (ledger_of d.config ≡ ledger_of ctx.config) × (bounds_of d.config ≡ bounds_of ctx.config)
  unfolding accept_authority
  accept_authority-kept ctx d h = ground arith
