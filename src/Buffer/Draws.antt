-- ===== src/Buffer/Draws.antt =====
-- When the buffer of programs/poyz/src/instructions/buffer.rs can be drawn, and where it goes.
use plott.Common.{ℕ, ◌+◌, ◌-◌, ◌*◌, ◌≤◌, ◌<◌, ◌≡◌, ◌≢◌, ok, some, arith, Result-cases, inl, inr}
use plott.Common.Int.{pos, ◌≤ℤ◌, ◌-ℤ◌}
use plott.Math.{acc_scale, acc_increment, mul_bps_floor}
use plott.Math.Bps.{mul_bps_floor_bounds}
use plott.Math.Accumulator.{acc_increment_bounds}
use plott.Runtime.{Runtime, Clock, Done, Wallet, vault, wallet, buffer_vault, funding_vault}
use plott.Runtime.Laws.{TokenLaws}
use plott.Events.Funding.{BufferDeposited, BufferWithdrawn}
use plott.Buffer.{
  BufferDepositCtx, BufferWithdrawCtx, buffer_withdraw_accounts, buffer_deposit, buffer_withdraw,
}

module _ {T : Type 0} (rt : Runtime T) (tokens : T) (clock : Clock) (ctx : BufferWithdrawCtx)
    (amount : ℕ) (d : Done T (Unit {0}) BufferWithdrawn)
    (done : buffer_withdraw rt tokens clock ctx amount ≡ ok d) where
  draw_open :
      (ctx.authority ≡ ctx.config.authority)
      × (0 < amount)
      × (0 < ctx.config.total_staked)
      × (ctx.config.negative_funding_since ≢ pos 0)
      × (pos ctx.config.buffer_unlock_delay_sec
          ≤ℤ clock.unix_timestamp -ℤ ctx.config.negative_funding_since)
  unfolding buffer_withdraw buffer_withdraw_accounts
  draw_open = ground arith

  draw_capped : amount * 10_000 ≤ ctx.config.buffer_balance * ctx.config.buffer_max_draw_bps
  unfolding buffer_withdraw
  draw_capped =
      elim (Result-cases (mul_bps_floor ctx.config.buffer_balance ctx.config.buffer_max_draw_bps)) [
        | inl (cap, e) ↦ ground (
          arith,
          mul_bps_floor_bounds ctx.config.buffer_balance ctx.config.buffer_max_draw_bps cap e,
        )
        | inr (f, e) ↦ ground arith
      ]

  -- A draw is the authority's, while something is staked, in a regime of negative funding that has
  -- lasted the unlock delay, and at most the capped share of the buffer.
  pub buffer_withdraw_gated :
      (ctx.authority ≡ ctx.config.authority)
      × (0 < amount)
      × (0 < ctx.config.total_staked)
      × (ctx.config.negative_funding_since ≢ pos 0)
      × (pos ctx.config.buffer_unlock_delay_sec
          ≤ℤ clock.unix_timestamp -ℤ ctx.config.negative_funding_since)
      × (amount * 10_000 ≤ ctx.config.buffer_balance * ctx.config.buffer_max_draw_bps)
  buffer_withdraw_gated = let (a, b, c, e, f) = draw_open in (a, b, c, e, f, draw_capped)

  draw_counts :
      (inc : ℕ)
      → acc_increment amount ctx.config.total_staked ≡ ok inc
      → (d.config.buffer_balance + amount ≡ ctx.config.buffer_balance)
        × (d.config.staker_funding_balance ≡ ctx.config.staker_funding_balance + amount)
        × (d.config.acc_funding_per_share ≡ ctx.config.acc_funding_per_share + inc)
        × (d.config ≡ record ctx.config {
          buffer_balance = d.config.buffer_balance;
          staker_funding_balance = d.config.staker_funding_balance;
          acc_funding_per_share = d.config.acc_funding_per_share;
        })
  unfolding buffer_withdraw
  draw_counts inc e = ground arith

  draw_increment : (inc : ℕ) × (acc_increment amount ctx.config.total_staked ≡ ok inc)
  unfolding buffer_withdraw
  draw_increment = elim (Result-cases (acc_increment amount ctx.config.total_staked)) [
    | inl found ↦ found
    | inr (f, e) ↦ ground arith
  ]

  draw_transfer :
      rt.transfer_checked tokens
        (vault buffer_vault)
        ctx.synthetic_mint
        (vault funding_vault)
        rt.config_key
        amount
        (rt.mint_account tokens ctx.synthetic_mint).decimals
      ≡ some d.tokens
  unfolding buffer_withdraw
  draw_transfer = ground arith

  -- With a token program that keeps its promises (Runtime/Laws): a draw goes to the stakers and
  -- nowhere else. The sum of the two balances does not change, each vault moves exactly as its
  -- balance, no caller's account moves, and the accumulator rises by no more than the draw is
  -- worth per unit of stake.
  pub buffer_withdraw-stakers :
      TokenLaws rt
      → (d.config.buffer_balance + d.config.staker_funding_balance
          ≡ ctx.config.buffer_balance + ctx.config.staker_funding_balance)
        × (rt.balance d.tokens (vault buffer_vault) + ctx.config.buffer_balance
            ≡ rt.balance tokens (vault buffer_vault) + d.config.buffer_balance)
        × (rt.balance d.tokens (vault funding_vault) + ctx.config.staker_funding_balance
            ≡ rt.balance tokens (vault funding_vault) + d.config.staker_funding_balance)
        × ((w : Wallet) → rt.balance d.tokens (wallet w) ≡ rt.balance tokens (wallet w))
        × ((d.config.acc_funding_per_share - ctx.config.acc_funding_per_share)
              * ctx.config.total_staked
            ≤ amount * acc_scale)
        × (d.config ≡ record ctx.config {
          buffer_balance = d.config.buffer_balance;
          staker_funding_balance = d.config.staker_funding_balance;
          acc_funding_per_share = d.config.acc_funding_per_share;
        })
  buffer_withdraw-stakers laws =
      let (inc, e) = draw_increment in
      let (b, s, a, frame) = draw_counts inc e in
      let m =
        laws.transfers tokens d.tokens (vault buffer_vault) (vault funding_vault) ctx.synthetic_mint
          rt.config_key amount (rt.mint_account tokens ctx.synthetic_mint).decimals draw_transfer
          (λ z. cc) in
      let rise : d.config.acc_funding_per_share - ctx.config.acc_funding_per_share ≡ inc =
        omega (arith, a) in
      (
        omega (arith, b, s),
        omega (arith, m.debited, b),
        omega (arith, m.credited, s),
        λ w. m.others (wallet w) (λ z. cc) (λ z. cc),
        rw rise (acc_increment_bounds amount ctx.config.total_staked inc e).0,
        frame,
      )

module _ {T : Type 0} (rt : Runtime T) (tokens : T) (clock : Clock) (ctx : BufferDepositCtx)
    (amount : ℕ) (d : Done T (Unit {0}) BufferDeposited)
    (done : buffer_deposit rt tokens clock ctx amount ≡ ok d) where
  deposit_facts :
      (d.config ≡ record ctx.config { buffer_balance = ctx.config.buffer_balance + amount })
      × (rt.transfer_checked tokens
            (wallet ctx.depositor_synthetic)
            ctx.synthetic_mint
            (vault buffer_vault)
            ctx.depositor
            amount
            (rt.mint_account tokens ctx.synthetic_mint).decimals
          ≡ some d.tokens)
  unfolding buffer_deposit
  deposit_facts = ground arith

  -- A deposit adds to the buffer, in the vault as in the config.
  pub buffer_deposit-vault :
      TokenLaws rt
      → (d.config ≡ record ctx.config { buffer_balance = ctx.config.buffer_balance + amount })
        × (rt.balance d.tokens (vault buffer_vault)
            ≡ rt.balance tokens (vault buffer_vault) + amount)
  buffer_deposit-vault laws =
      let (frame, moved) = deposit_facts in
      (
        frame,
        (laws.transfers tokens d.tokens (wallet ctx.depositor_synthetic) (vault buffer_vault)
            ctx.synthetic_mint ctx.depositor amount
            (rt.mint_account tokens ctx.synthetic_mint).decimals moved (λ z. cc)).credited,
      )
