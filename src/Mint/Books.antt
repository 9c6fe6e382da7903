-- ===== src/Mint/Books.antt =====
-- What the handlers of programs/poyz/src/instructions/mint.rs write into the books, in full.
use plott.Common.{ℕ, ◌+◌, ◌≡◌, false, some, ok, arith, ◌^◌, ◌<◌}
use plott.State.{MintRequest}
use plott.State.Keys.{Hash}
use plott.State.Ledger.{ledger_of}
use plott.State.Settings.{settings_of}
use plott.Runtime.{Runtime, Clock, Done, vault, wallet, collateral_vault}
use plott.Events.Requests.{MintRequested, MintConfirmed, MintCancelled}
use plott.Mint.Accounts.{MintRequestCtx, MintConfirmCtx, MintCancelCtx, mint_confirm_accounts}
use plott.Mint.{mint_request, mint_confirm, mint_cancel}

module _ {T : Type 0} (rt : Runtime T) (tokens : T) (clock : Clock) where
  module _ (ctx : MintRequestCtx) (nonce amount least : ℕ) (d : Done T MintRequest MintRequested)
      (done : mint_request rt tokens clock ctx nonce amount least ≡ ok d) where
    pub mint_request-settings : settings_of d.config ≡ settings_of ctx.config
    unfolding mint_request
    mint_request-settings = ground arith

    pub mint_request-ledger : ledger_of d.config ≡ record (ledger_of ctx.config) {
      pending_collateral = ctx.config.pending_collateral + amount;
    }
    unfolding mint_request
    mint_request-ledger = ground arith

    pub mint_request-account :
        (d.account.user ≡ ctx.user)
        × (d.account.nonce ≡ nonce)
        × (d.account.collateral_amount ≡ amount)
    unfolding mint_request
    mint_request-account = ground arith

    pub mint_request-transfer :
        rt.transfer_checked tokens
          (wallet ctx.user_collateral)
          ctx.collateral_mint
          (vault collateral_vault)
          ctx.user
          amount
          (rt.mint_account tokens ctx.collateral_mint).decimals
        ≡ some d.tokens
    unfolding mint_request
    mint_request-transfer = ground arith

  module _ (ctx : MintConfirmCtx) (hash : Hash) (venue_id filled : ℕ)
      (d : Done T (Unit {0}) MintConfirmed)
      (done : mint_confirm rt tokens clock ctx hash venue_id filled ≡ ok d) where
    pub mint_confirm-settings : settings_of d.config ≡ settings_of ctx.config
    unfolding mint_confirm
    mint_confirm-settings = ground arith

    pub mint_confirm-ledger :
        (ledger_of d.config ≡ record (ledger_of ctx.config) {
          pending_collateral = d.config.pending_collateral;
          total_collateral = ctx.config.total_collateral + ctx.request.collateral_amount;
          total_synthetic = ctx.config.total_synthetic + d.event.synthetic_minted;
          hedged_notional = ctx.config.hedged_notional + filled;
        })
        × (d.config.pending_collateral + ctx.request.collateral_amount
            ≡ ctx.config.pending_collateral)
    unfolding mint_confirm
    mint_confirm-ledger = ground arith

    pub mint_confirm-mint_to :
        (rt.mint_to tokens ctx.synthetic_mint
            (wallet ctx.user_synthetic)
            rt.config_key
            d.event.synthetic_minted
          ≡ some d.tokens)
        × (ctx.synthetic_mint ≡ ctx.config.synthetic_mint)
        × (ctx.config.mint_paused ≡ false)
    unfolding mint_confirm mint_confirm_accounts
    mint_confirm-mint_to = ground arith

  module _ (ctx : MintCancelCtx) (d : Done T (Unit {0}) MintCancelled)
      (done : mint_cancel rt tokens clock ctx ≡ ok d) where
    pub mint_cancel-settings : settings_of d.config ≡ settings_of ctx.config
    unfolding mint_cancel
    mint_cancel-settings = ground arith

    pub mint_cancel-ledger :
        (ledger_of d.config
          ≡ record (ledger_of ctx.config) { pending_collateral = d.config.pending_collateral })
        × (d.config.pending_collateral + ctx.request.collateral_amount
            ≡ ctx.config.pending_collateral)
    unfolding mint_cancel
    mint_cancel-ledger = ground arith

    pub mint_cancel-transfer :
        rt.transfer_checked tokens
          (vault collateral_vault)
          ctx.collateral_mint
          (wallet ctx.user_collateral)
          rt.config_key
          ctx.request.collateral_amount
          (rt.mint_account tokens ctx.collateral_mint).decimals
        ≡ some d.tokens
    unfolding mint_cancel
    mint_cancel-transfer = ground arith

module _ {T : Type 0} (rt : Runtime T) (tokens : T) (clock : Clock) where
  pub mint_request-fits :
      (ctx : MintRequestCtx) (nonce amount least : ℕ) (d : Done T MintRequest MintRequested)
      → mint_request rt tokens clock ctx nonce amount least ≡ ok d
      → d.config.pending_collateral < 2 ^ 64
  unfolding mint_request
  mint_request-fits ctx nonce amount least d done = ground arith

  pub mint_confirm-fits :
      (ctx : MintConfirmCtx) (hash : Hash) (venue_id filled : ℕ)
      (d : Done T (Unit {0}) MintConfirmed)
      → mint_confirm rt tokens clock ctx hash venue_id filled ≡ ok d
      → (d.config.total_collateral < 2 ^ 64) × (d.config.total_synthetic < 2 ^ 64)
  unfolding mint_confirm
  mint_confirm-fits ctx hash venue_id filled d done = ground arith
