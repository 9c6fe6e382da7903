-- ===== src/Program/Administer/Kept.antt =====
-- What no administration touches, and what every one keeps.
use plott.Common.{◌≡◌, ok, arith, Result-cases, inl, inr, List}
use plott.State.{Config, Keeper}
use plott.State.Ledger.{ledger_of}
use plott.Runtime.{Runtime, Clock, Done}
use plott.Events.Admin.{ParamsUpdated}
use plott.Admin.Params.{UpdateParams}
use plott.Admin.Accounts.{AdminOnly}
use plott.Admin
use plott.Admin.Validated.{IsValidated, set_params-IsValidated}
use plott.Admin.Books.{
  bounds_of, IsValidated-bounds, set_params-ledger, set_paused-kept, set_guardian-kept,
  report_venue_state-kept, set_oracle-kept, transfer_authority-kept, accept_authority-kept,
}
use plott.Vaults
use plott.Vaults.Books.{
  init_collateral_vault-kept, init_bond_vaults-kept, init_funding_vaults-kept,
  init_stake_vaults-kept,
}
use plott.Program.Store.{find}
use plott.Program.World.{is_keeper}
use plott.Program.Administer.{Administration, administer, optional}

module _ {T : Type 0} (rt : Runtime T) (tokens : T) (clock : Clock) (keepers : List Keeper)
    (config : Config) where
  -- The books are as before, and the parameters are valid if they were.
  pub record Kept (c : Config) : Type 0 where
    pub ledger : ledger_of c ≡ ledger_of config
    pub valid : IsValidated config → IsValidated c

  Kept-bounds :
      (c : Config) → (ledger_of c ≡ ledger_of config) × (bounds_of c ≡ bounds_of config) → Kept c
  Kept-bounds c (l, b) = record { ledger = l; valid = IsValidated-bounds config c b }

  set_params-valid :
      (ctx : AdminOnly) (params : UpdateParams) (c : Config) (d : Done T (Unit {0}) ParamsUpdated)
      → Admin.set_params rt tokens clock (record ctx { config = config }) params ≡ ok d
      → d.config ≡ c
      → IsValidated c
  set_params-valid ctx params c d k e =
      rw (← e)
        (set_params-IsValidated rt tokens clock (record ctx { config = config }) params d k).1

  pub administer-Kept :
      (change : Administration) (c : Config)
      → administer rt tokens clock keepers config change ≡ ok c
      → Kept c
  unfolding administer
  administer-Kept (Administration.set_params ctx params) c h =
      elim (Result-cases
        (Admin.set_params rt tokens clock (record ctx { config = config }) params)) [
          | inl (d, k) ↦ record {
            ledger = ground (
              arith,
              set_params-ledger rt tokens clock (record ctx { config = config }) params d k,
            );
            valid = λ v. set_params-valid ctx params c d k (ground arith);
          }
          | inr (f, k) ↦ ground arith
        ]
  administer-Kept (Administration.set_paused ctx mint redeem) c h =
      elim (Result-cases
        (Admin.set_paused rt tokens clock (record ctx { config = config }) mint redeem)) [
          | inl (d, k) ↦ Kept-bounds c (
              ground (
                arith,
                set_paused-kept rt tokens clock (record ctx { config = config }) mint redeem d k,
              ))
          | inr (f, k) ↦ ground arith
        ]
  administer-Kept (Administration.set_guardian ctx guardian) c h =
      elim (Result-cases
        (Admin.set_guardian rt tokens clock (record ctx { config = config }) guardian)) [
          | inl (d, k) ↦ Kept-bounds c (
              ground (
                arith,
                set_guardian-kept rt tokens clock (record ctx { config = config }) guardian d k,
              ))
          | inr (f, k) ↦ ground arith
        ]
  administer-Kept (Administration.set_oracle ctx oracle feed_id) c h =
      elim (Result-cases
        (Admin.set_oracle rt tokens clock (record ctx { config = config }) oracle feed_id)) [
          | inl (d, k) ↦ Kept-bounds c (
              ground (
                arith,
                set_oracle-kept rt tokens clock (record ctx { config = config }) oracle feed_id d k,
              ))
          | inr (f, k) ↦ ground arith
        ]
  administer-Kept (Administration.transfer_authority ctx next) c h =
      elim (Result-cases
        (Admin.transfer_authority rt tokens clock (record ctx { config = config }) next)) [
          | inl (d, k) ↦ Kept-bounds c (
              ground (
                arith,
                transfer_authority-kept rt tokens clock (record ctx { config = config }) next d k,
              ))
          | inr (f, k) ↦ ground arith
        ]
  administer-Kept (Administration.accept_authority ctx) c h =
      elim (Result-cases
        (Admin.accept_authority rt tokens clock (record ctx { config = config }))) [
          | inl (d, k) ↦ Kept-bounds c (
              ground
                (arith, accept_authority-kept rt tokens clock (record ctx { config = config }) d k))
          | inr (f, k) ↦ ground arith
        ]
  administer-Kept (Administration.init_collateral_vault ctx) c h =
      elim (Result-cases
        (Vaults.init_collateral_vault rt tokens (record ctx { config = config }))) [
          | inl (d, k) ↦ Kept-bounds c (
              ground
                (arith, init_collateral_vault-kept rt tokens (record ctx { config = config }) d k))
          | inr (f, k) ↦ ground arith
        ]
  administer-Kept (Administration.init_bond_vaults ctx) c h =
      elim (Result-cases (Vaults.init_bond_vaults rt tokens (record ctx { config = config }))) [
        | inl (d, k) ↦
            Kept-bounds c
              (ground (arith, init_bond_vaults-kept rt tokens (record ctx { config = config }) d k))
        | inr (f, k) ↦ ground arith
      ]
  administer-Kept (Administration.init_funding_vaults ctx) c h =
      elim (Result-cases (Vaults.init_funding_vaults rt tokens (record ctx { config = config }))) [
        | inl (d, k) ↦ Kept-bounds c (
            ground (arith, init_funding_vaults-kept rt tokens (record ctx { config = config }) d k))
        | inr (f, k) ↦ ground arith
      ]
  administer-Kept (Administration.init_stake_vaults ctx) c h =
      elim (Result-cases (Vaults.init_stake_vaults rt tokens (record ctx { config = config }))) [
        | inl (d, k) ↦
            Kept-bounds c (
              ground (arith, init_stake_vaults-kept rt tokens (record ctx { config = config }) d k))
        | inr (f, k) ↦ ground arith
      ]
  administer-Kept (Administration.report_venue_state ctx venue_id net capacity) c h =
      elim (Result-cases (optional ctx.keeper_account (find (is_keeper ctx.signer) keepers))) [
        | inl (keeper, e) ↦
            elim (Result-cases (
              Admin.report_venue_state rt tokens clock
                (record ctx { config = config; keeper_account = keeper }) venue_id net capacity)) [
                  | inl (d, k) ↦ Kept-bounds c (
                      ground (
                        arith,
                        report_venue_state-kept rt tokens clock
                            (record ctx { config = config; keeper_account = keeper }) venue_id net
                            capacity d k,
                      ))
                  | inr (f, k) ↦ ground arith
                ]
        | inr (f, e) ↦ ground arith
      ]
