-- ===== src/Redeem/Confirm.antt =====
-- When `redeem_confirm` of programs/poyz/src/instructions/redeem.rs pays, and how much.
use plott.Common.{
  ℕ, ◌+◌, ◌-◌, ◌*◌, ◌≤◌, ◌<◌, ◌≡◌, ◌≢◌, min, true, false, ok, arith, Result-cases, inl, inr,
}
use plott.Common.Int.{pos, ◌≤ℤ◌, ◌-ℤ◌}
use plott.Math.Value.{rate_num, rate_den, notional_to_collateral-IsCollateral}
use plott.Valuation.{config_price, config_collateral, config_shift}
use plott.State.Keys.{Hash, zero_hash}
use plott.Pyth.{OraclePrice}
use plott.Runtime.{Runtime, Clock, Done}
use plott.Events.Requests.{RedeemConfirmed}
use plott.Redeem.Accounts.{RedeemConfirmCtx}
use plott.Redeem.Net.{net_of_fee_bounds, check_unwind_bounds}
use plott.Redeem.{redeem_confirm, Redeemed, net_of_fee, check_unwind}

module _ {T : Type 0} (rt : Runtime T) (tokens : T) (clock : Clock) (ctx : RedeemConfirmCtx)
    (hash : Hash) (venue_id unwound : ℕ) (d : Done T (Unit {0}) RedeemConfirmed)
    (done : redeem_confirm rt tokens clock ctx hash venue_id unwound ≡ ok d) where
  -- A redemption only settles unpaused, by an active keeper with the minimum bond, with a proof hash,
  -- no earlier than the settlement delay after the request and no later than its deadline.
  pub redeem_confirm_guarded :
      (ctx.config.redeem_paused ≡ false)
      × (ctx.keeper_account.active ≡ true)
      × (ctx.config.min_keeper_bond ≤ ctx.keeper_account.bonded)
      × (hash ≢ zero_hash)
      × (pos ctx.config.min_settlement_delay_sec ≤ℤ clock.unix_timestamp -ℤ ctx.request.created_at)
      × (clock.unix_timestamp ≤ℤ ctx.request.deadline)
  unfolding redeem_confirm
  redeem_confirm_guarded = ground arith

  -- The whole requested amount leaves the supply and the amounts in flight, the collateral that is
  -- paid leaves the total, the unwound hedge leaves the hedge down to 0, and nothing else moves.
  pub redeem_confirm-config :
      (d.config.pending_redeem_synthetic + ctx.request.synthetic_amount
        ≡ ctx.config.pending_redeem_synthetic)
      × (d.config.total_synthetic + ctx.request.synthetic_amount ≡ ctx.config.total_synthetic)
      × (d.config.total_collateral + d.event.collateral_returned ≡ ctx.config.total_collateral)
      × (d.config.hedged_notional ≡ ctx.config.hedged_notional - unwound)
      × (d.config ≡ record ctx.config {
        pending_redeem_synthetic = d.config.pending_redeem_synthetic;
        total_synthetic = d.config.total_synthetic;
        total_collateral = d.config.total_collateral;
        hedged_notional = d.config.hedged_notional;
      })
  unfolding redeem_confirm
  redeem_confirm-config = ground arith

  redeem_price :
      (price : OraclePrice) × (config_price rt ctx.config ctx.oracle clock.unix_timestamp
        ≡ ok price)
  unfolding redeem_confirm
  redeem_price = elim (Result-cases (config_price rt ctx.config ctx.oracle clock.unix_timestamp)) [
    | inl found ↦ found
    | inr (f, e) ↦ ground arith
  ]

  redeem_net : (r : Redeemed) × (net_of_fee ctx.config ctx.request.synthetic_amount ≡ ok r)
  unfolding redeem_confirm
  redeem_net = elim (Result-cases (net_of_fee ctx.config ctx.request.synthetic_amount)) [
    | inl found ↦ found
    | inr (f, e) ↦ ground arith
  ]

  module _ (price : OraclePrice)
      (priced : config_price rt ctx.config ctx.oracle clock.unix_timestamp ≡ ok price)
      (r : Redeemed) (less : net_of_fee ctx.config ctx.request.synthetic_amount ≡ ok r) where
    redeem_worth : (c : ℕ) × (config_collateral ctx.config price r.net ≡ ok c)
    unfolding redeem_confirm
    redeem_worth = elim (Result-cases (config_collateral ctx.config price r.net)) [
      | inl found ↦ found
      | inr (f, e) ↦ ground arith
    ]

    redeem_facts :
        (c : ℕ)
        → config_collateral ctx.config price r.net ≡ ok c
        → (d.event.collateral_returned ≡ min c ctx.request.quoted_collateral)
          × (d.event.fee ≡ r.fee)
          × (0 < d.event.collateral_returned)
          × (ctx.request.min_collateral_out ≤ d.event.collateral_returned)
          × (check_unwind ctx.config ctx.request.synthetic_amount unwound ≡ ok tt)
    unfolding redeem_confirm
    redeem_facts c e = ground arith

  paid_within :
      (paid quoted c num net den : ℕ)
      → paid ≡ min c quoted
      → c * num ≤ net * den
      → (paid ≤ quoted) × (paid * num ≤ net * den)
  paid_within paid quoted c num net den e h =
      let below : paid ≤ c = omega (arith, e) in
      let scaled : paid * num ≤ c * num = grind arith in (omega (arith, e), omega arith)

  -- What is paid is at least what the user asked for, at most what the request quoted, and at most the
  -- exact worth of the amount less the fee at a price that the oracle gate accepts now. The reported
  -- unwind covers the redeemed amount less the slippage band.
  pub redeem_confirm_backed :
      (price : OraclePrice) × (config_price rt ctx.config ctx.oracle clock.unix_timestamp
        ≡ ok price)
      × (let s = config_shift ctx.config price in
          (0 < d.event.collateral_returned)
          × (ctx.request.min_collateral_out ≤ d.event.collateral_returned)
          × (d.event.collateral_returned ≤ ctx.request.quoted_collateral)
          × (d.event.collateral_returned * rate_num price.price s
              ≤ (ctx.request.synthetic_amount - d.event.fee) * rate_den s)
          × (ctx.request.synthetic_amount * ctx.config.redeem_fee_bps ≤ d.event.fee * 10_000)
          × (ctx.request.synthetic_amount * (10_000 - ctx.config.max_hedge_slippage_bps)
              < (unwound + 1) * 10_000))
  redeem_confirm_backed =
      let (price, priced) = redeem_price in
      let (r, less) = redeem_net in
      let (c, worth) = redeem_worth price priced r less in
      let (paid, fee, some_paid, asked, unwind) = redeem_facts price priced r less c worth in
      let (sum, charged) = net_of_fee_bounds ctx.config ctx.request.synthetic_amount r less in
      let (w0, w1, w2) =
        notional_to_collateral-IsCollateral r.net price.price price.expo
          ctx.config.collateral_decimals ctx.config.synthetic_decimals c worth in
      let (quoted, value) =
        paid_within d.event.collateral_returned ctx.request.quoted_collateral c
          (rate_num price.price (config_shift ctx.config price)) r.net
          (rate_den (config_shift ctx.config price)) paid w1 in
      let net : ctx.request.synthetic_amount - d.event.fee ≡ r.net = omega (arith, sum, fee) in
      (
        price,
        priced,
        (
          some_paid,
          asked,
          quoted,
          rw net value,
          rw fee charged,
          (check_unwind_bounds ctx.config ctx.request.synthetic_amount unwound unwind).1,
        ),
      )
