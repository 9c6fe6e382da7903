-- ===== src/Redeem/Request.antt =====
-- What `redeem_request` of programs/poyz/src/instructions/redeem.rs takes.
use plott.Common.{ℕ, ◌+◌, ◌≤◌, ◌<◌, ◌≡◌, true, false, some, ok, arith}
use plott.Common.Int.{pos, ◌+ℤ◌}
use plott.State.{RedeemRequest, vaults_ready}
use plott.Runtime.{Runtime, Clock, Done, vault, wallet, redeem_escrow}
use plott.Runtime.Laws.{TokenLaws}
use plott.Events.Requests.{RedeemRequested}
use plott.Redeem.Accounts.{RedeemRequestCtx}
use plott.Redeem.{redeem_request}

module _ {T : Type 0} (rt : Runtime T) (tokens : T) (clock : Clock) (ctx : RedeemRequestCtx)
    (nonce amount least : ℕ) (d : Done T RedeemRequest RedeemRequested)
    (done : redeem_request rt tokens clock ctx nonce amount least ≡ ok d) where
  -- A redemption is only requested unpaused, with the vaults made and a keeper registered. The request
  -- records the caller, the amount and a deadline one time-to-live from now; the amounts in flight,
  -- this one included, stay within the supply; and the config moves in that count alone.
  pub redeem_request-escrowed :
      (ctx.config.redeem_paused ≡ false)
      × (vaults_ready ctx.config ≡ true)
      × (0 < ctx.config.keeper_count)
      × (0 < amount)
      × (d.account.user ≡ ctx.user)
      × (d.account.synthetic_amount ≡ amount)
      × (0 < d.account.quoted_collateral)
      × (d.account.created_at ≡ clock.unix_timestamp)
      × (d.account.deadline ≡ clock.unix_timestamp +ℤ pos ctx.config.request_ttl_sec)
      × (ctx.config.pending_redeem_synthetic + amount ≤ ctx.config.total_synthetic)
      × (d.config ≡ record ctx.config {
        pending_redeem_synthetic = ctx.config.pending_redeem_synthetic + amount;
      })
  unfolding redeem_request
  redeem_request-escrowed = ground arith

  escrow_transfer :
      rt.transfer_checked tokens
        (wallet ctx.user_synthetic)
        ctx.synthetic_mint
        (vault redeem_escrow)
        ctx.user
        amount
        (rt.mint_account tokens ctx.synthetic_mint).decimals
      ≡ some d.tokens
  unfolding redeem_request
  escrow_transfer = ground arith

  escrow_counted : d.config.pending_redeem_synthetic ≡ ctx.config.pending_redeem_synthetic + amount
  unfolding redeem_request
  escrow_counted = ground arith

  -- The synthetic moves from the caller's account into the escrow, as the count does.
  pub redeem_request-escrow :
      TokenLaws rt
      → (rt.balance tokens (wallet ctx.user_synthetic)
          ≡ rt.balance d.tokens (wallet ctx.user_synthetic) + amount)
        × (rt.balance d.tokens (vault redeem_escrow) + ctx.config.pending_redeem_synthetic
            ≡ rt.balance tokens (vault redeem_escrow) + d.config.pending_redeem_synthetic)
  redeem_request-escrow laws =
      let m =
        laws.transfers tokens d.tokens (wallet ctx.user_synthetic) (vault redeem_escrow)
          ctx.synthetic_mint ctx.user amount (rt.mint_account tokens ctx.synthetic_mint).decimals
          escrow_transfer (λ e. cc) in
      (m.debited, omega (arith, m.credited, escrow_counted))
