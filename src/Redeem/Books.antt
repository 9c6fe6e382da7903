-- ===== src/Redeem/Books.antt =====
-- What the handlers of programs/poyz/src/instructions/redeem.rs write into the books, in full.
use plott.Common.{ℕ, ◌+◌, ◌-◌, ◌≤◌, ◌≡◌, false, some, ok, arith, ◌^◌, ◌<◌}
use plott.State.{RedeemRequest}
use plott.State.Keys.{Hash}
use plott.State.Ledger.{ledger_of}
use plott.State.Settings.{settings_of}
use plott.Runtime.{Runtime, Clock, Done, vault, wallet, redeem_escrow}
use plott.Events.Requests.{RedeemRequested, RedeemConfirmed, RedeemCancelled}
use plott.Redeem.Accounts.{RedeemRequestCtx, RedeemConfirmCtx, RedeemCancelCtx}
use plott.Redeem.{redeem_request, redeem_confirm, redeem_cancel}

module _ {T : Type 0} (rt : Runtime T) (tokens : T) (clock : Clock) where
  module _ (ctx : RedeemRequestCtx) (nonce amount least : ℕ)
      (d : Done T RedeemRequest RedeemRequested)
      (done : redeem_request rt tokens clock ctx nonce amount least ≡ ok d) where
    pub redeem_request-settings : settings_of d.config ≡ settings_of ctx.config
    unfolding redeem_request
    redeem_request-settings = ground arith

    pub redeem_request-ledger :
        (ledger_of d.config ≡ record (ledger_of ctx.config) {
          pending_redeem_synthetic = ctx.config.pending_redeem_synthetic + amount;
        })
        × (ctx.config.pending_redeem_synthetic + amount ≤ ctx.config.total_synthetic)
    unfolding redeem_request
    redeem_request-ledger = ground arith

    pub redeem_request-account :
        (d.account.user ≡ ctx.user)
        × (d.account.nonce ≡ nonce)
        × (d.account.synthetic_amount ≡ amount)
    unfolding redeem_request
    redeem_request-account = ground arith

    pub redeem_request-transfer :
        rt.transfer_checked tokens
          (wallet ctx.user_synthetic)
          ctx.synthetic_mint
          (vault redeem_escrow)
          ctx.user
          amount
          (rt.mint_account tokens ctx.synthetic_mint).decimals
        ≡ some d.tokens
    unfolding redeem_request
    redeem_request-transfer = ground arith

  module _ (ctx : RedeemConfirmCtx) (hash : Hash) (venue_id unwound : ℕ)
      (d : Done T (Unit {0}) RedeemConfirmed)
      (done : redeem_confirm rt tokens clock ctx hash venue_id unwound ≡ ok d) where
    pub redeem_confirm-settings : settings_of d.config ≡ settings_of ctx.config
    unfolding redeem_confirm
    redeem_confirm-settings = ground arith

    pub redeem_confirm-ledger :
        (ledger_of d.config ≡ record (ledger_of ctx.config) {
          pending_redeem_synthetic = d.config.pending_redeem_synthetic;
          total_synthetic = d.config.total_synthetic;
          total_collateral = d.config.total_collateral;
          hedged_notional = ctx.config.hedged_notional - unwound;
        })
        × (d.config.pending_redeem_synthetic + ctx.request.synthetic_amount
            ≡ ctx.config.pending_redeem_synthetic)
        × (d.config.total_synthetic + ctx.request.synthetic_amount ≡ ctx.config.total_synthetic)
        × (d.config.total_collateral + d.event.collateral_returned ≡ ctx.config.total_collateral)
        × (ctx.config.redeem_paused ≡ false)
    unfolding redeem_confirm
    redeem_confirm-ledger = ground arith

  module _ (ctx : RedeemCancelCtx) (d : Done T (Unit {0}) RedeemCancelled)
      (done : redeem_cancel rt tokens clock ctx ≡ ok d) where
    pub redeem_cancel-settings : settings_of d.config ≡ settings_of ctx.config
    unfolding redeem_cancel
    redeem_cancel-settings = ground arith

    pub redeem_cancel-ledger :
        (ledger_of d.config ≡ record (ledger_of ctx.config) {
          pending_redeem_synthetic = d.config.pending_redeem_synthetic;
        })
        × (d.config.pending_redeem_synthetic + ctx.request.synthetic_amount
            ≡ ctx.config.pending_redeem_synthetic)
    unfolding redeem_cancel
    redeem_cancel-ledger = ground arith

    pub redeem_cancel-transfer :
        rt.transfer_checked tokens
          (vault redeem_escrow)
          ctx.synthetic_mint
          (wallet ctx.user_synthetic)
          rt.config_key
          ctx.request.synthetic_amount
          (rt.mint_account tokens ctx.synthetic_mint).decimals
        ≡ some d.tokens
    unfolding redeem_cancel
    redeem_cancel-transfer = ground arith

module _ {T : Type 0} (rt : Runtime T) (tokens : T) (clock : Clock) where
  pub redeem_request-fits :
      (ctx : RedeemRequestCtx) (nonce amount least : ℕ) (d : Done T RedeemRequest RedeemRequested)
      → redeem_request rt tokens clock ctx nonce amount least ≡ ok d
      → d.config.pending_redeem_synthetic < 2 ^ 64
  unfolding redeem_request
  redeem_request-fits ctx nonce amount least d done = ground arith
