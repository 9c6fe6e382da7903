-- ===== src/Admin/Roles.antt =====
-- What the guardian and a proposed authority can do (programs/poyz/src/instructions/admin.rs).
use plott.Common.{◌≡◌, ◌≢◌, refl, ◌⊎◌, Bool, true, false, ok, arith}
use plott.State.{vaults_ready}
use plott.State.Keys.{Pubkey, default_key}
use plott.Runtime.{Runtime, Clock, Done}
use plott.Events.Admin.{PauseChanged, AuthorityTransferProposed, AuthorityTransferred}
use plott.Admin.Accounts.{AdminOnly, SignerCtx, admin_accounts, check_pause}
use plott.Admin.{set_paused, transfer_authority, accept_authority}

module _ {T : Type 0} (rt : Runtime T) (tokens : T) (clock : Clock) where
  -- Whoever changes a pause is the authority, or the guardian, who only ever pauses: neither flag that
  -- is set is cleared. A flag is only left clear with all vaults made, and nothing else changes.
  pub set_paused_guarded :
      (ctx : SignerCtx) (mint redeem : Bool) (d : Done T (Unit {0}) PauseChanged)
      → set_paused rt tokens clock ctx mint redeem ≡ ok d
      → ((ctx.signer ≡ ctx.config.authority)
          ⊎ ((ctx.signer ≡ ctx.config.guardian)
              × ((d.config.mint_paused ≡ true) ⊎ (ctx.config.mint_paused ≡ false))
              × ((d.config.redeem_paused ≡ true) ⊎ (ctx.config.redeem_paused ≡ false))))
        × (((d.config.mint_paused ≡ true) × (d.config.redeem_paused ≡ true))
            ⊎ (vaults_ready ctx.config ≡ true))
        × (d.config ≡ record ctx.config { mint_paused = mint; redeem_paused = redeem })
  unfolding set_paused check_pause
  set_paused_guarded ctx mint redeem d h = ground arith

  -- The guardian can pause both sides at any time, whatever the config says.
  pub set_paused_complete :
      (ctx : SignerCtx)
      → ctx.signer ≡ ctx.config.guardian
      → (d : Done T (Unit {0}) PauseChanged) × (set_paused rt tokens clock ctx true true ≡ ok d)
        × (d.config ≡ record ctx.config { mint_paused = true; redeem_paused = true })
  unfolding set_paused check_pause
  set_paused_complete ctx h = (
    record {
      config = record ctx.config { mint_paused = true; redeem_paused = true };
      account = tt;
      tokens = tokens;
      event = record {
        config = rt.config_key;
        signer = ctx.signer;
        mint_paused = true;
        redeem_paused = true;
      };
    },
    ground arith,
    refl,
  )

  -- The authority only moves in two steps: a proposal of the old authority leaves it in place, and
  -- the acceptance is by the proposed key itself, which then holds it with no proposal left.
  pub accept_authority-transfer_authority :
      (ctx : AdminOnly) (next : Pubkey) (p : Done T (Unit {0}) AuthorityTransferProposed)
      (accepting : SignerCtx) (a : Done T (Unit {0}) AuthorityTransferred)
      → transfer_authority rt tokens clock ctx next ≡ ok p
      → accepting.config ≡ p.config
      → accept_authority rt tokens clock accepting ≡ ok a
      → (ctx.authority ≡ ctx.config.authority)
        × (p.config.authority ≡ ctx.config.authority)
        × (accepting.signer ≡ next)
        × (next ≢ default_key)
        × (a.config ≡ record ctx.config { authority = next; pending_authority = default_key })
  unfolding transfer_authority accept_authority admin_accounts
  accept_authority-transfer_authority ctx next p accepting a h same k = ground arith
