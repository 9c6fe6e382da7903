-- ===== src/Redeem/Cancel.antt =====
-- How a redeem request ends without its keeper: `redeem_cancel` of
-- programs/poyz/src/instructions/redeem.rs, against `redeem_confirm`.
use plott.Common.{ℕ, ◌+◌, ◌-◌, ◌≤◌, ◌≡◌, refl, ◌≢◌, some, ok, arith}
use plott.Common.Int.{◌≤ℤ◌, ◌<ℤ◌}
use plott.State.Keys.{Hash}
use plott.Runtime.{Runtime, Clock, Done, vault, wallet, redeem_escrow}
use plott.Runtime.Laws.{TokenLaws}
use plott.Events.Requests.{RedeemCancelled, RedeemConfirmed}
use plott.Redeem.Accounts.{RedeemCancelCtx, RedeemConfirmCtx, redeem_cancel_accounts}
use plott.Redeem.{redeem_cancel, redeem_confirm}

module _ {T : Type 0} (rt : Runtime T) (tokens : T) (clock : Clock) where
  -- An expired request can be cancelled whatever else the config says, paused or not, when the
  -- accounts are those of the request's user and of the config, the token program makes the
  -- transfer, and the count in flight covers the amount. The whole escrow is what is transferred,
  -- and nothing but that count changes.
  pub redeem_cancel_complete :
      (ctx : RedeemCancelCtx) (t : T)
      → ctx.config.synthetic_mint ≡ ctx.synthetic_mint
      → ctx.token_program ≡ ctx.config.token_program
      → ctx.request.user ≡ ctx.user
      → ctx.user_synthetic.mint ≡ ctx.synthetic_mint
      → ctx.user_synthetic.authority ≡ ctx.user
      → ctx.request.deadline <ℤ clock.unix_timestamp
      → ctx.request.synthetic_amount ≤ ctx.config.pending_redeem_synthetic
      → rt.transfer_checked tokens
          (vault redeem_escrow)
          ctx.synthetic_mint
          (wallet ctx.user_synthetic)
          rt.config_key
          ctx.request.synthetic_amount
          (rt.mint_account tokens ctx.synthetic_mint).decimals
        ≡ some t
      → (d : Done T (Unit {0}) RedeemCancelled) × (redeem_cancel rt tokens clock ctx ≡ ok d)
        × (d.tokens ≡ t)
        × (d.config ≡ record ctx.config {
          pending_redeem_synthetic =
              ctx.config.pending_redeem_synthetic - ctx.request.synthetic_amount;
        })
  unfolding redeem_cancel redeem_cancel_accounts
  redeem_cancel_complete ctx t a b c d e late covered moved = (
    record {
      config = record ctx.config {
        pending_redeem_synthetic =
            ctx.config.pending_redeem_synthetic - ctx.request.synthetic_amount;
      };
      account = tt;
      tokens = t;
      event = record {
        config = rt.config_key;
        user = ctx.user;
        nonce = ctx.request.nonce;
        synthetic_returned = ctx.request.synthetic_amount;
        timestamp = clock.unix_timestamp;
      };
    },
    ground arith,
    refl,
    refl,
  )

  cancel_facts :
      (ctx : RedeemCancelCtx) (d : Done T (Unit {0}) RedeemCancelled)
      → redeem_cancel rt tokens clock ctx ≡ ok d
      → (ctx.request.deadline <ℤ clock.unix_timestamp)
        × (ctx.request.user ≡ ctx.user_synthetic.authority)
        × (d.config.pending_redeem_synthetic + ctx.request.synthetic_amount
            ≡ ctx.config.pending_redeem_synthetic)
        × (rt.transfer_checked tokens
              (vault redeem_escrow)
              ctx.synthetic_mint
              (wallet ctx.user_synthetic)
              rt.config_key
              ctx.request.synthetic_amount
              (rt.mint_account tokens ctx.synthetic_mint).decimals
            ≡ some d.tokens)
  unfolding redeem_cancel redeem_cancel_accounts
  cancel_facts ctx d done = ground arith

  pub redeem_cancel_late :
      (ctx : RedeemCancelCtx) (d : Done T (Unit {0}) RedeemCancelled)
      → redeem_cancel rt tokens clock ctx ≡ ok d
      → ctx.request.deadline <ℤ clock.unix_timestamp
  redeem_cancel_late ctx d done = (cancel_facts ctx d done).0

  -- With a token program that keeps its promises (Runtime/Laws): a cancellation is only of an
  -- expired request, gives the whole escrow back to an account of the request's user, and moves
  -- the escrow exactly as the config's count.
  pub redeem_cancel-escrow :
      (ctx : RedeemCancelCtx) (d : Done T (Unit {0}) RedeemCancelled)
      → redeem_cancel rt tokens clock ctx ≡ ok d
      → TokenLaws rt
      → (ctx.request.deadline <ℤ clock.unix_timestamp)
        × (ctx.request.user ≡ ctx.user_synthetic.authority)
        × (rt.balance d.tokens (wallet ctx.user_synthetic)
            ≡ rt.balance tokens (wallet ctx.user_synthetic) + ctx.request.synthetic_amount)
        × (rt.balance d.tokens (vault redeem_escrow) + ctx.config.pending_redeem_synthetic
            ≡ rt.balance tokens (vault redeem_escrow) + d.config.pending_redeem_synthetic)
  redeem_cancel-escrow ctx d done laws =
      let (late, user, pending, moved) = cancel_facts ctx d done in
      let m =
        laws.transfers tokens d.tokens (vault redeem_escrow) (wallet ctx.user_synthetic)
          ctx.synthetic_mint rt.config_key ctx.request.synthetic_amount
          (rt.mint_account tokens ctx.synthetic_mint).decimals moved (λ e. cc) in
      (late, user, m.credited, omega (arith, m.debited, pending))

  confirm_timely :
      (ctx : RedeemConfirmCtx) (hash : Hash) (venue_id unwound : ℕ)
      → (d : Done T (Unit {0}) RedeemConfirmed)
      → redeem_confirm rt tokens clock ctx hash venue_id unwound ≡ ok d
      → clock.unix_timestamp ≤ℤ ctx.request.deadline
  unfolding redeem_confirm
  confirm_timely ctx hash venue_id unwound d done = ground arith

  -- At one time, a request that a keeper can confirm cannot be cancelled.
  pub redeem_confirm-redeem_cancel :
      (ctx : RedeemConfirmCtx) (hash : Hash) (venue_id unwound : ℕ)
      → (d : Done T (Unit {0}) RedeemConfirmed)
      → redeem_confirm rt tokens clock ctx hash venue_id unwound ≡ ok d
      → (own : RedeemCancelCtx) → own.request ≡ ctx.request
      → (c : Done T (Unit {0}) RedeemCancelled) → redeem_cancel rt tokens clock own ≢ ok c
  redeem_confirm-redeem_cancel ctx hash venue_id unwound d done own same c = λ cancelled.
      let late = (cancel_facts own c cancelled).0 in
      let timely = confirm_timely ctx hash venue_id unwound d done in
      let late' : ctx.request.deadline <ℤ clock.unix_timestamp = rw (← same) late in omega arith
