-- ===== src/Redeem/Settled.antt =====
-- The tokens of `redeem_confirm` (programs/poyz/src/instructions/redeem.rs) against the config's counts.
use plott.Common.{ℕ, ◌+◌, ◌≡◌, some, ok, arith, Option-cases, inl, inr, ap, ◌∙◌}
use plott.State.Keys.{Hash}
use plott.Runtime.{Runtime, Clock, Done, vault, wallet, collateral_vault, redeem_escrow}
use plott.Runtime.Laws.{TokenLaws}
use plott.Events.Requests.{RedeemConfirmed}
use plott.Redeem.Accounts.{RedeemConfirmCtx, redeem_confirm_accounts}
use plott.Redeem.{redeem_confirm}

module _ {T : Type 0} (rt : Runtime T) (tokens : T) (clock : Clock) (ctx : RedeemConfirmCtx)
    (hash : Hash) (venue_id unwound : ℕ) (d : Done T (Unit {0}) RedeemConfirmed)
    (done : redeem_confirm rt tokens clock ctx hash venue_id unwound ≡ ok d) where
  pub escrow_burned :
      (burned : T) × (rt.burn tokens ctx.synthetic_mint
          (vault redeem_escrow)
          rt.config_key
          ctx.request.synthetic_amount
        ≡ some burned)
  unfolding redeem_confirm
  escrow_burned =
      elim (Option-cases (
        rt.burn tokens ctx.synthetic_mint (vault redeem_escrow) rt.config_key
          ctx.request.synthetic_amount)) [ inl e ↦ ground arith | inr found ↦ found ]

  pub collateral_paid :
      (burned : T)
      → rt.burn tokens ctx.synthetic_mint
          (vault redeem_escrow)
          rt.config_key
          ctx.request.synthetic_amount
        ≡ some burned
      → rt.transfer_checked burned
          (vault collateral_vault)
          ctx.collateral_mint
          (wallet ctx.user_collateral)
          rt.config_key
          d.event.collateral_returned
          (rt.mint_account burned ctx.collateral_mint).decimals
        ≡ some d.tokens
  unfolding redeem_confirm
  collateral_paid burned e = ground arith

  pub settled_counts :
      (d.config.pending_redeem_synthetic + ctx.request.synthetic_amount
        ≡ ctx.config.pending_redeem_synthetic)
      × (d.config.total_synthetic + ctx.request.synthetic_amount ≡ ctx.config.total_synthetic)
      × (d.config.total_collateral + d.event.collateral_returned ≡ ctx.config.total_collateral)
      × (ctx.config.synthetic_mint ≡ ctx.synthetic_mint)
      × (ctx.user_collateral.authority ≡ ctx.request.user)
  unfolding redeem_confirm redeem_confirm_accounts
  settled_counts = ground arith

  -- With a token program that keeps its promises (Runtime/Laws): the whole requested amount is
  -- burned from the escrow and leaves the supply, and the collateral that the event reports goes from
  -- the vault to an account of the request's user, so that the escrow, the supply and the collateral vault each move exactly as the config's count
  -- of them.
  pub redeem_confirm-vaults :
      TokenLaws rt
      → (ctx.user_collateral.authority ≡ ctx.request.user)
        × (rt.balance d.tokens (wallet ctx.user_collateral)
            ≡ rt.balance tokens (wallet ctx.user_collateral) + d.event.collateral_returned)
        × (rt.balance tokens (vault redeem_escrow)
            ≡ rt.balance d.tokens (vault redeem_escrow) + ctx.request.synthetic_amount)
        × (rt.supply tokens ctx.config.synthetic_mint
            ≡ rt.supply d.tokens ctx.config.synthetic_mint + ctx.request.synthetic_amount)
        × (rt.balance tokens (vault collateral_vault)
            ≡ rt.balance d.tokens (vault collateral_vault) + d.event.collateral_returned)
        × (rt.balance d.tokens (vault redeem_escrow) + ctx.config.pending_redeem_synthetic
            ≡ rt.balance tokens (vault redeem_escrow) + d.config.pending_redeem_synthetic)
        × (rt.supply d.tokens ctx.config.synthetic_mint + ctx.config.total_synthetic
            ≡ rt.supply tokens ctx.config.synthetic_mint + d.config.total_synthetic)
        × (rt.balance d.tokens (vault collateral_vault) + ctx.config.total_collateral
            ≡ rt.balance tokens (vault collateral_vault) + d.config.total_collateral)
  redeem_confirm-vaults laws =
      let (burned, b) = escrow_burned in
      let (debited, kept, supply) =
        laws.burns tokens burned ctx.synthetic_mint rt.config_key (vault redeem_escrow)
          ctx.request.synthetic_amount b in
      let m =
        laws.transfers burned d.tokens (vault collateral_vault) (wallet ctx.user_collateral)
          ctx.collateral_mint rt.config_key d.event.collateral_returned
          (rt.mint_account burned ctx.collateral_mint).decimals (collateral_paid burned b)
          (λ e. cc) in
      let (pending, total, collateral, own, user) = settled_counts in
      let escrow = m.others (vault redeem_escrow) (λ e. cc) (λ e. cc) in
      (
        user,
        m.credited
            ∙ ap (λ (n : ℕ). n + d.event.collateral_returned)
                (kept (wallet ctx.user_collateral) (λ e. cc)),
        omega (arith, escrow, debited),
        rw own (omega (arith, m.supplies ctx.synthetic_mint, supply)),
        omega (arith, m.debited, kept (vault collateral_vault) (λ e. cc)),
        omega (arith, escrow, debited, pending),
        rw own (omega (arith, m.supplies ctx.synthetic_mint, supply, total)),
        omega (arith, m.debited, kept (vault collateral_vault) (λ e. cc), collateral),
      )
