-- ===== src/Funding/Settle.antt =====
-- How `settle_funding` of programs/poyz/src/instructions/funding.rs splits an amount.
use plott.Common.{ℕ, ◌+◌, ◌-◌, ◌*◌, ◌≤◌, ◌<◌, ◌≡◌, ok, arith, Result-cases, inl, inr, ◌⊎◌}
use plott.Math.{acc_scale, acc_increment}
use plott.Math.Accumulator.{acc_increment_bounds}
use plott.Math.Bps.{mul_bps_ceil_bounds}
use plott.Math.{mul_bps_ceil}
use plott.State.{Config}
use plott.Runtime.{Runtime, Clock, Done}
use plott.Events.Funding.{FundingSettled}
use plott.Funding.Accounts.{SettleFundingCtx}
use plott.Funding.{buffer_part, settle_stakers, settle_buffer, settle_funding}

-- The buffer's share, rounded up, or all of the amount when nothing is staked.
pub buffer_part_bounds :
    (config : Config) (amount part : ℕ)
    → buffer_part config amount ≡ ok part
    → ((config.total_staked ≡ 0) × (part ≡ amount))
      ⊎ ((0 < config.total_staked)
          × (amount * config.buffer_share_bps ≤ part * 10_000)
          × (part * 10_000 < amount * config.buffer_share_bps + 10_000))
unfolding buffer_part
buffer_part_bounds config amount part h =
    elim (Result-cases (mul_bps_ceil amount config.buffer_share_bps)) [
      | inl (p, e) ↦ ground (arith, mul_bps_ceil_bounds amount config.buffer_share_bps p e)
      | inr (f, e) ↦ ground arith
    ]

-- The accumulator rises by at most the amount's worth per unit of stake.
settle_stakers_lem :
    (config : Config) (amount : ℕ) (config' : Config)
    → settle_stakers config amount ≡ ok config'
    → (config.acc_funding_per_share ≤ config'.acc_funding_per_share)
      × ((config'.acc_funding_per_share - config.acc_funding_per_share) * config.total_staked
          ≤ amount * acc_scale)
      × (config' ≡ record config {
        acc_funding_per_share = config'.acc_funding_per_share;
        staker_funding_balance = config.staker_funding_balance + amount;
      })
unfolding settle_stakers
settle_stakers_lem config amount config' h =
    elim (Result-cases (acc_increment amount config.total_staked)) [
      | inl (inc, e) ↦ ground (arith, acc_increment_bounds amount config.total_staked inc e)
      | inr (f, e) ↦ ground arith
    ]

settle_buffer_lem :
    (config : Config) (amount : ℕ) (config' : Config)
    → settle_buffer config amount ≡ ok config'
    → config' ≡ record config { buffer_balance = config.buffer_balance + amount }
unfolding settle_buffer
settle_buffer_lem config amount config' h = ground arith

module _ {T : Type 0} (rt : Runtime T) (tokens : T) (clock : Clock) (ctx : SettleFundingCtx)
    (amount : ℕ) (d : Done T (Unit {0}) FundingSettled)
    (done : settle_funding rt tokens clock ctx amount ≡ ok d) where
  pub settle_part :
      (buffer_part ctx.config amount ≡ ok d.event.to_buffer)
      × (d.event.to_stakers + d.event.to_buffer ≡ amount)
  unfolding settle_funding
  settle_part = elim (Result-cases (buffer_part ctx.config amount)) [
    | inl (p, e) ↦ ground arith
    | inr (f, e) ↦ ground arith
  ]

  module _ (parted : buffer_part ctx.config amount ≡ ok d.event.to_buffer)
      (split : d.event.to_stakers + d.event.to_buffer ≡ amount) where
    rest : amount - d.event.to_buffer ≡ d.event.to_stakers
    rest = omega (arith, split)

    settle_paid : (paid : Config) × (settle_stakers ctx.config d.event.to_stakers ≡ ok paid)
    unfolding settle_funding
    settle_paid = elim (Result-cases (settle_stakers ctx.config d.event.to_stakers)) [
      | inl found ↦ found
      | inr (f, e) ↦ ground (arith, rest)
    ]

    settle_buffered :
        (paid : Config)
        → settle_stakers ctx.config d.event.to_stakers ≡ ok paid
        → (buffered : Config) × (settle_buffer paid d.event.to_buffer ≡ ok buffered)
          × (d.config ≡ record buffered { last_settle_at = clock.unix_timestamp })
    unfolding settle_funding
    settle_buffered paid e = elim (Result-cases (settle_buffer paid d.event.to_buffer)) [
      | inl (buffered, k) ↦ (buffered, k, ground (arith, rest))
      | inr (f, k) ↦ ground (arith, rest)
    ]

  -- Every unit that is settled goes to the stakers or to the buffer, and to the buffer alone when
  -- nothing is staked; otherwise the buffer has its share, rounded up. The accumulator rises by no
  -- more than the stakers' part is worth, and no other count moves.
  pub settle_funding-split :
      (d.event.to_stakers + d.event.to_buffer ≡ amount)
      × (((ctx.config.total_staked ≡ 0) × (d.event.to_buffer ≡ amount))
          ⊎ ((0 < ctx.config.total_staked)
              × (amount * ctx.config.buffer_share_bps ≤ d.event.to_buffer * 10_000)
              × (d.event.to_buffer * 10_000 < amount * ctx.config.buffer_share_bps + 10_000)))
      × (ctx.config.acc_funding_per_share ≤ d.config.acc_funding_per_share)
      × ((d.config.acc_funding_per_share - ctx.config.acc_funding_per_share)
            * ctx.config.total_staked
          ≤ d.event.to_stakers * acc_scale)
      × (d.config ≡ record ctx.config {
        acc_funding_per_share = d.config.acc_funding_per_share;
        staker_funding_balance = ctx.config.staker_funding_balance + d.event.to_stakers;
        buffer_balance = ctx.config.buffer_balance + d.event.to_buffer;
        last_settle_at = clock.unix_timestamp;
      })
  settle_funding-split =
      let (parted, split) = settle_part in
      let (paid, e) = settle_paid parted split in
      let (buffered, k, final) = settle_buffered parted split paid e in
      let (up, worth, frame) = settle_stakers_lem ctx.config d.event.to_stakers paid e in
      let after = settle_buffer_lem paid d.event.to_buffer buffered k in
      let acc : d.config.acc_funding_per_share ≡ paid.acc_funding_per_share = cc in
      (
        split,
        buffer_part_bounds ctx.config amount d.event.to_buffer parted,
        rw acc up,
        rw acc worth,
        cc,
      )
