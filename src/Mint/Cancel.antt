-- ===== src/Mint/Cancel.antt =====
-- How a mint request ends without its keeper: `mint_cancel` of programs/poyz/src/instructions/mint.rs,
-- against `mint_confirm`.
use plott.Common.{ℕ, ◌+◌, ◌-◌, ◌≤◌, ◌≡◌, refl, ◌≢◌, some, ok, arith}
use plott.Common.Int.{◌≤ℤ◌, ◌<ℤ◌}
use plott.Runtime.{Runtime, Clock, Done, vault, wallet, collateral_vault}
use plott.Runtime.Laws.{TokenLaws}
use plott.State.Keys.{Hash}
use plott.Events.Requests.{MintCancelled, MintConfirmed}
use plott.Mint.Accounts.{MintCancelCtx, MintConfirmCtx, mint_cancel_accounts}
use plott.Mint.{mint_cancel, mint_confirm}

module _ {T : Type 0} (rt : Runtime T) (tokens : T) (clock : Clock) where
  -- An expired request can be cancelled whatever else the config says, paused or not, when the
  -- accounts are those of the request's user and of the config, the token program makes the
  -- transfer, and the pending total covers the amount. The whole escrow is what is transferred,
  -- and nothing but the pending total changes.
  pub mint_cancel_complete :
      (ctx : MintCancelCtx) (t : T)
      → ctx.config.collateral_mint ≡ ctx.collateral_mint
      → ctx.token_program ≡ ctx.config.token_program
      → ctx.request.user ≡ ctx.user
      → ctx.user_collateral.mint ≡ ctx.collateral_mint
      → ctx.user_collateral.authority ≡ ctx.user
      → ctx.request.deadline <ℤ clock.unix_timestamp
      → ctx.request.collateral_amount ≤ ctx.config.pending_collateral
      → rt.transfer_checked tokens
          (vault collateral_vault)
          ctx.collateral_mint
          (wallet ctx.user_collateral)
          rt.config_key
          ctx.request.collateral_amount
          (rt.mint_account tokens ctx.collateral_mint).decimals
        ≡ some t
      → (d : Done T (Unit {0}) MintCancelled) × (mint_cancel rt tokens clock ctx ≡ ok d)
        × (d.tokens ≡ t)
        × (d.config ≡ record ctx.config {
          pending_collateral = ctx.config.pending_collateral - ctx.request.collateral_amount;
        })
  unfolding mint_cancel mint_cancel_accounts
  mint_cancel_complete ctx t a b c d e late covered moved = (
    record {
      config = record ctx.config {
        pending_collateral = ctx.config.pending_collateral - ctx.request.collateral_amount;
      };
      account = tt;
      tokens = t;
      event = record {
        config = rt.config_key;
        user = ctx.user;
        nonce = ctx.request.nonce;
        collateral_returned = ctx.request.collateral_amount;
        timestamp = clock.unix_timestamp;
      };
    },
    ground arith,
    refl,
    refl,
  )

  cancel_facts :
      (ctx : MintCancelCtx) (d : Done T (Unit {0}) MintCancelled)
      → mint_cancel rt tokens clock ctx ≡ ok d
      → (ctx.request.deadline <ℤ clock.unix_timestamp)
        × (ctx.request.user ≡ ctx.user_collateral.authority)
        × (d.config.pending_collateral + ctx.request.collateral_amount
            ≡ ctx.config.pending_collateral)
        × (rt.transfer_checked tokens
              (vault collateral_vault)
              ctx.collateral_mint
              (wallet ctx.user_collateral)
              rt.config_key
              ctx.request.collateral_amount
              (rt.mint_account tokens ctx.collateral_mint).decimals
            ≡ some d.tokens)
  unfolding mint_cancel mint_cancel_accounts
  cancel_facts ctx d done = ground arith

  pub mint_cancel_late :
      (ctx : MintCancelCtx) (d : Done T (Unit {0}) MintCancelled)
      → mint_cancel rt tokens clock ctx ≡ ok d
      → ctx.request.deadline <ℤ clock.unix_timestamp
  mint_cancel_late ctx d done = (cancel_facts ctx d done).0

  -- With a token program that keeps its promises (Runtime/Laws): a cancellation is only of an
  -- expired request, gives the whole escrow back to an account of the request's user, and moves
  -- the vault exactly as the pending total.
  pub mint_cancel-vault :
      (ctx : MintCancelCtx) (d : Done T (Unit {0}) MintCancelled)
      → mint_cancel rt tokens clock ctx ≡ ok d
      → TokenLaws rt
      → (ctx.request.deadline <ℤ clock.unix_timestamp)
        × (ctx.request.user ≡ ctx.user_collateral.authority)
        × (rt.balance d.tokens (wallet ctx.user_collateral)
            ≡ rt.balance tokens (wallet ctx.user_collateral) + ctx.request.collateral_amount)
        × (rt.balance d.tokens (vault collateral_vault) + ctx.config.pending_collateral
            ≡ rt.balance tokens (vault collateral_vault) + d.config.pending_collateral)
  mint_cancel-vault ctx d done laws =
      let (late, user, pending, moved) = cancel_facts ctx d done in
      let m =
        laws.transfers tokens d.tokens (vault collateral_vault) (wallet ctx.user_collateral)
          ctx.collateral_mint rt.config_key ctx.request.collateral_amount
          (rt.mint_account tokens ctx.collateral_mint).decimals moved (λ e. cc) in
      (late, user, m.credited, omega (arith, m.debited, pending))

  mint_cancel_early :
      (ctx : MintCancelCtx)
      → clock.unix_timestamp ≤ℤ ctx.request.deadline
      → (d : Done T (Unit {0}) MintCancelled) → mint_cancel rt tokens clock ctx ≢ ok d
  unfolding mint_cancel
  mint_cancel_early ctx early d = ground arith

  confirm_timely :
      (ctx : MintConfirmCtx) (hash : Hash) (venue_id filled : ℕ)
      → (d : Done T (Unit {0}) MintConfirmed)
      → mint_confirm rt tokens clock ctx hash venue_id filled ≡ ok d
      → clock.unix_timestamp ≤ℤ ctx.request.deadline
  unfolding mint_confirm
  confirm_timely ctx hash venue_id filled d done = ground arith

  -- At one time, a request that a keeper can confirm cannot be cancelled.
  pub mint_confirm-mint_cancel :
      (ctx : MintConfirmCtx) (hash : Hash) (venue_id filled : ℕ)
      → (d : Done T (Unit {0}) MintConfirmed)
      → mint_confirm rt tokens clock ctx hash venue_id filled ≡ ok d
      → (own : MintCancelCtx) → own.request ≡ ctx.request
      → (c : Done T (Unit {0}) MintCancelled) → mint_cancel rt tokens clock own ≢ ok c
  mint_confirm-mint_cancel ctx hash venue_id filled d done own same c =
      mint_cancel_early own (rw same (confirm_timely ctx hash venue_id filled d done)) c
