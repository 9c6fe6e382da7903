-- ===== src/Mint/Confirm.antt =====
-- What `mint_confirm` of programs/poyz/src/instructions/mint.rs issues, and against what.
use plott.Common.{
  ℕ, ◌+◌, ◌-◌, ◌*◌, ◌≤◌, ◌<◌, ◌≡◌, ◌≢◌, min, true, false, ok, arith, Result-cases, inl, inr,
}
use native.Mathlib.Nat.{mul-le-mul_right}
use plott.Common.Int.{◌≤ℤ◌}
use plott.Math.Value.{rate_num, rate_den, collateral_to_notional-IsNotional}
use plott.Valuation.{config_price, config_notional, config_shift}
use plott.State.{venue_enabled}
use plott.State.Keys.{Hash, zero_hash}
use plott.Pyth.{OraclePrice}
use plott.Runtime.{Runtime, Clock, Done}
use plott.Events.Requests.{MintConfirmed}
use plott.Mint.Accounts.{MintConfirmCtx}
use plott.Mint.Gates.{supply_ceiling, check_fill, Issue, issue_amount}
use plott.Mint.Issuance.{
  issue_amount_bounds, issue_amount-le, check_fill_bounds, supply_ceiling_bounds,
}
use plott.Mint.{mint_confirm}

issue_fits :
    (issued quoted n collateral num den share filled : ℕ)
    → issued ≤ min n quoted
    → n * den ≤ collateral * num
    → min n quoted * share < (filled + 1) * 10_000
    → (issued ≤ quoted)
      × (issued * den ≤ collateral * num)
      × (issued * share < (filled + 1) * 10_000)
issue_fits issued quoted n collateral num den share filled h worth covered =
    let below : issued ≤ n = omega arith in
    let scaled : issued * den ≤ n * den = grind arith in
    let shared : issued * share ≤ min n quoted * share = mul-le-mul_right share h in
    (omega arith, omega arith, omega arith)

module _ {T : Type 0} (rt : Runtime T) (tokens : T) (clock : Clock) (ctx : MintConfirmCtx)
    (hash : Hash) (venue_id filled_notional : ℕ) (d : Done T (Unit {0}) MintConfirmed)
    (done : mint_confirm rt tokens clock ctx hash venue_id filled_notional ≡ ok d) where
  -- The config moves by the request's collateral, the issue and the fill, and in nothing else.
  pub mint_confirm-config :
      (d.config.pending_collateral + ctx.request.collateral_amount ≡ ctx.config.pending_collateral)
      × (d.config.total_collateral ≡ ctx.config.total_collateral + ctx.request.collateral_amount)
      × (d.config.hedged_notional ≡ ctx.config.hedged_notional + filled_notional)
      × (d.config.total_synthetic ≡ ctx.config.total_synthetic + d.event.synthetic_minted)
      × (d.config ≡ record ctx.config {
        pending_collateral = d.config.pending_collateral;
        total_collateral = d.config.total_collateral;
        total_synthetic = d.config.total_synthetic;
        hedged_notional = d.config.hedged_notional;
      })
  unfolding mint_confirm
  mint_confirm-config = ground arith

  module _ (price : OraclePrice)
      (priced : config_price rt ctx.config ctx.oracle clock.unix_timestamp ≡ ok price) where
    confirm_notional :
        (n : ℕ) × (config_notional ctx.config price ctx.request.collateral_amount ≡ ok n)
    unfolding mint_confirm
    confirm_notional =
        elim (Result-cases (config_notional ctx.config price ctx.request.collateral_amount)) [
          | inl found ↦ found
          | inr (f, e) ↦ ground arith
        ]

    module _ (n : ℕ)
        (valued : config_notional ctx.config price ctx.request.collateral_amount ≡ ok n) where
      confirm_issue :
          (issue : Issue) × (issue_amount ctx.config (min n ctx.request.quoted_notional) ≡ ok issue)
      unfolding mint_confirm
      confirm_issue =
          elim (Result-cases (issue_amount ctx.config (min n ctx.request.quoted_notional))) [
            | inl found ↦ found
            | inr (f, e) ↦ ground arith
          ]

      confirm_facts :
          (issue : Issue)
          → issue_amount ctx.config (min n ctx.request.quoted_notional) ≡ ok issue
          → (d.event.synthetic_minted ≡ issue.net)
            × (d.event.fee ≡ issue.fee)
            × (check_fill ctx.config (min n ctx.request.quoted_notional) filled_notional ≡ ok tt)
      unfolding mint_confirm
      confirm_facts issue e = ground arith

    -- At a price that the oracle gate accepts, what is issued, fee included, is at most the notional
    -- quoted at the request and at most the exact value of the collateral at that price, and the
    -- reported fill covers what is issued less the slippage band. This wants a collateral ratio of 1.00x or
    -- more, which every validated config has.
    pub mint_confirm_backed :
        10_000 ≤ ctx.config.collateral_ratio_bps
        → let issued = d.event.synthetic_minted + d.event.fee in
          let s = config_shift ctx.config price in
          (0 < d.event.synthetic_minted)
          × (issued ≤ ctx.request.quoted_notional)
          × (issued * rate_den s ≤ ctx.request.collateral_amount * rate_num price.price s)
          × (issued * (10_000 - ctx.config.max_hedge_slippage_bps) < (filled_notional + 1) * 10_000)
    mint_confirm_backed ratio =
        let (n, valued) = confirm_notional in
        let (issue, e) = confirm_issue n valued in
        let (net, fee, filled) = confirm_facts n valued issue e in
        let least = min n ctx.request.quoted_notional in
        let bound = issue_amount-le ctx.config least issue e ratio in
        let fill = check_fill_bounds ctx.config least filled_notional filled in
        let value =
          collateral_to_notional-IsNotional ctx.request.collateral_amount price.price price.expo
            ctx.config.collateral_decimals ctx.config.synthetic_decimals n valued in
        let (quoted, worth, covered) =
          issue_fits (d.event.synthetic_minted + d.event.fee) ctx.request.quoted_notional n
            ctx.request.collateral_amount (rate_num price.price (config_shift ctx.config price))
            (rate_den (config_shift ctx.config price)) (10_000 - ctx.config.max_hedge_slippage_bps)
            filled_notional (omega (arith, net, fee, bound)) value.1 fill.1 in
        (
          omega (arith, net, (issue_amount_bounds ctx.config least issue e).0),
          quoted,
          worth,
          covered,
        )

  -- A confirmation only happens with the mint open, by an active keeper with the minimum bond, with a
  -- proof hash, on an enabled venue, and not after the request's deadline.
  pub mint_confirm_guarded :
      (ctx.config.mint_paused ≡ false)
      × (ctx.keeper_account.active ≡ true)
      × (ctx.config.min_keeper_bond ≤ ctx.keeper_account.bonded)
      × (hash ≢ zero_hash)
      × (venue_enabled ctx.config venue_id ≡ true)
      × (clock.unix_timestamp ≤ℤ ctx.request.deadline)
  unfolding mint_confirm
  mint_confirm_guarded = ground arith

  confirm_ceiling : (c : ℕ) × (supply_ceiling ctx.config ≡ ok c)
  unfolding mint_confirm
  confirm_ceiling = elim (Result-cases (supply_ceiling ctx.config)) [
    | inl found ↦ found
    | inr (f, e) ↦ ground arith
  ]

  confirm_under : (c : ℕ) → supply_ceiling ctx.config ≡ ok c → d.config.total_synthetic ≤ c
  unfolding mint_confirm
  confirm_under c e = ground arith

  -- The supply that a confirmation leaves is within the cap and within the configured share of the
  -- reported capacity.
  pub mint_confirm_capped :
      (d.config.total_synthetic ≤ ctx.config.max_synthetic_supply)
      × (d.config.total_synthetic * 10_000
          ≤ ctx.config.venue_capacity_notional * ctx.config.max_supply_vs_capacity_bps)
  mint_confirm_capped =
      let (c, e) = confirm_ceiling in
      let under = confirm_under c e in
      let (supply, capacity) = supply_ceiling_bounds ctx.config c e in (omega arith, omega arith)
