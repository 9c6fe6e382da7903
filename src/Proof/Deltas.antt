-- ===== src/Proof/Deltas.antt =====
-- Which rebalances `commit_rebalance_proof` of programs/poyz/src/instructions/proof.rs accepts.
use plott.Common.{ℕ, ◌+◌, ◌*◌, ◌≤◌, ◌<◌, ◌≡◌, ok, arith, Result-cases, inl, inr}
use plott.Common.Int.{ℤ, unsigned_abs, ◌-ℤ◌}
use plott.Common.Checked.{abs_diff}
use plott.Math.{delta_bps, mul_bps_ceil}
use plott.Math.Bps.{mul_bps_ceil_bounds}
use plott.Math.Delta.{delta_bps-within_iff}
use plott.Valuation.{config_price, config_notional}
use plott.State.{Keeper, RebalanceProof}
use plott.Pyth.{OraclePrice}
use plott.Runtime.{Runtime, Clock, Done}
use plott.Events.Keepers.{RebalanceProofCommitted}
use plott.Proof.{CommitRebalanceProofCtx, Claim, commit_rebalance_proof}

module _ {T : Type 0} (rt : Runtime T) (tokens : T) (clock : Clock) (ctx : CommitRebalanceProofCtx)
    (claim : Claim) (d : Done T (RebalanceProof × Keeper) RebalanceProofCommitted)
    (done : commit_rebalance_proof rt tokens clock ctx claim ≡ ok d) where
  pub proof_price :
      (price : OraclePrice) × (config_price rt ctx.config ctx.oracle clock.unix_timestamp
        ≡ ok price)
  unfolding commit_rebalance_proof
  proof_price = elim (Result-cases (config_price rt ctx.config ctx.oracle clock.unix_timestamp)) [
    | inl found ↦ found
    | inr (f, e) ↦ ground arith
  ]

  module _ (price : OraclePrice)
      (priced : config_price rt ctx.config ctx.oracle clock.unix_timestamp ≡ ok price) where
    proof_book : (n : ℕ) × (config_notional ctx.config price ctx.config.total_collateral ≡ ok n)
    unfolding commit_rebalance_proof
    proof_book =
        elim (Result-cases (config_notional ctx.config price ctx.config.total_collateral)) [
          | inl found ↦ found
          | inr (f, e) ↦ ground arith
        ]

    module _ (n : ℕ)
        (book : config_notional ctx.config price ctx.config.total_collateral ≡ ok n) where
      proof_tolerance : (t : ℕ) × (mul_bps_ceil n ctx.config.max_hedge_slippage_bps ≡ ok t)
      unfolding commit_rebalance_proof
      proof_tolerance = elim (Result-cases (mul_bps_ceil n ctx.config.max_hedge_slippage_bps)) [
        | inl found ↦ found
        | inr (f, e) ↦ ground arith
      ]

      module _ (t : ℕ) (tolerated : mul_bps_ceil n ctx.config.max_hedge_slippage_bps ≡ ok t) where
        proof_delta : (x : ℤ) × (delta_bps n claim.hedged_notional ≡ ok x)
        unfolding commit_rebalance_proof
        proof_delta = elim (Result-cases (delta_bps n claim.hedged_notional)) [
          | inl found ↦ found
          | inr (f, e) ↦ ground arith
        ]

        proof_facts :
            (x : ℤ)
            → delta_bps n claim.hedged_notional ≡ ok x
            → (0 < n)
              × (abs_diff claim.collateral_notional n ≤ t)
              × (unsigned_abs x ≤ ctx.config.delta_exit_bps)
              × (unsigned_abs (claim.delta_bps_after -ℤ x) ≤ ctx.config.delta_exit_bps)
              × (d.account.0.delta_bps_after ≡ x)
              × (d.account.0.collateral_notional ≡ n)
        unfolding commit_rebalance_proof
        proof_facts x e = ground arith

  -- The book after the rebalance is within the exit band in exact arithmetic, at the value that the
  -- program itself gives the collateral, and the keeper's own figures agree: the collateral within
  -- the slippage tolerance, and the deviation within one exit band. What is recorded is the
  -- program's figure, not the keeper's.
  pub commit_rebalance_proof_hedged :
      (price : OraclePrice) × (config_price rt ctx.config ctx.oracle clock.unix_timestamp
        ≡ ok price)
      × (let book = d.account.0.collateral_notional in
          (config_notional ctx.config price ctx.config.total_collateral ≡ ok book)
          × (0 < book)
          × (abs_diff book claim.hedged_notional * 10_000 < (ctx.config.delta_exit_bps + 1) * book)
          × (delta_bps book claim.hedged_notional ≡ ok d.account.0.delta_bps_after)
          × (abs_diff claim.collateral_notional book * 10_000
              < book * ctx.config.max_hedge_slippage_bps + 10_000)
          × (unsigned_abs (claim.delta_bps_after -ℤ d.account.0.delta_bps_after)
              ≤ ctx.config.delta_exit_bps))
  commit_rebalance_proof_hedged =
      let (price, priced) = proof_price in
      let (n, book) = proof_book price priced in
      let (t, tolerated) = proof_tolerance price priced n book in
      let (x, e) = proof_delta price priced n book t tolerated in
      let (some_book, near, exit, gap, recorded, valued) =
        proof_facts price priced n book t tolerated x e in
      let bound = mul_bps_ceil_bounds n ctx.config.max_hedge_slippage_bps t tolerated in
      let within = delta_bps-within_iff n claim.hedged_notional ctx.config.delta_exit_bps x e in
      rw (valued, recorded)
        (price, priced, (book, some_book, within.0 exit, e, omega (arith, near, bound), gap))
