-- ===== src/Mint/Open.antt =====
-- When issuance is open: `check_issuance_gates` of programs/poyz/src/instructions/mint.rs.
use plott.Common.{
  ℕ, ◌+◌, ◌*◌, ◌/◌, ◌^◌, zero, suc, ◌≤◌, ◌<◌, ◌≡◌, refl, ◌≢◌, ◌⊎◌, inl, inr, ok, arith,
  Result-cases,
}
use plott.Common.Int.{ℤ, pos, ◌≤ℤ◌, ◌-ℤ◌, -ℤ_parts, eq_of_parts}
use plott.Math.{delta_bps}
use native.Mathlib.Decide.{dec_lt}
use plott.Math.Value.{collateral_to_notional-lt}
use plott.Common.Checked.{abs_diff}
use plott.Math.Delta.{delta_bps-within_iff, delta_bps_total}
use plott.Valuation.{config_notional}
use plott.State.{Config}
use plott.Pyth.{OraclePrice}
use plott.Mint.Gates.{check_issuance_gates, check_hard_band, within_hard_band}

-- The book at a price is inside the hard band, in exact arithmetic, or it is worth nothing.
abbrev pub InHardBand : Config → ℕ → Type 0
InHardBand config book =
    (book ≡ 0)
    ⊎ (abs_diff book config.hedged_notional * 10_000 < (config.delta_hard_bps + 1) * book)

-- When issuance is open: a report exists, is not from the future and not stale, the carry is at or
-- above its floor, and a book that holds collateral has a value inside the hard band.
pub record IsOpen (config : Config) (now : ℤ) (price : OraclePrice) : Type 0 where
  pub reported : config.venue_state_at ≢ pos 0
  pub not_future : config.venue_state_at ≤ℤ now
  pub fresh : now -ℤ config.venue_state_at ≤ℤ pos config.max_venue_state_age_sec
  pub carry : config.min_net_carry_bps ≤ℤ config.last_net_carry_bps
  pub band :
      (config.total_collateral ≡ 0)
      ⊎ ((book : ℕ) × (config_notional config price config.total_collateral ≡ ok book)
          × InHardBand config book)

within_hard_band-InHardBand :
    (config : Config) (book : ℕ)
    → 0 < book
    → within_hard_band config book ≡ ok tt
    → InHardBand config book
unfolding within_hard_band
within_hard_band-InHardBand config book p h =
    elim (Result-cases (delta_bps book config.hedged_notional)) [
      | inl (d, e) ↦
          let q = delta_bps-within_iff book config.hedged_notional config.delta_hard_bps d e in
          inr (q.0 (ground arith))
      | inr (f, e) ↦ ground arith
    ]

check_hard_band-InHardBand :
    (config : Config) (price : OraclePrice)
    → check_hard_band config price ≡ ok tt
    → (book : ℕ) × (config_notional config price config.total_collateral ≡ ok book)
      × InHardBand config book
unfolding check_hard_band
check_hard_band-InHardBand config price h =
    elim (Result-cases (config_notional config price config.total_collateral)) [
      | inl (zero, e) ↦ (0, e, inl refl)
      | inl (suc b, e) ↦
          (suc b, e, within_hard_band-InHardBand config (suc b) (omega arith) (ground arith))
      | inr (f, e) ↦ ground arith
    ]

book_band :
    (config : Config) (now : ℤ) (price : OraclePrice)
    → check_issuance_gates config now price ≡ ok tt
    → (config.total_collateral ≡ 0)
      ⊎ ((book : ℕ) × (config_notional config price config.total_collateral ≡ ok book)
          × InHardBand config book)
unfolding check_issuance_gates
book_band config now price h = elim (dec_lt 0 config.total_collateral) [
  | yes p ↦ inr (check_hard_band-InHardBand config price (ground arith))
  | no n ↦ inl (omega arith)
]

pub check_issuance_gates-IsOpen :
    (config : Config) (now : ℤ) (price : OraclePrice)
    → check_issuance_gates config now price ≡ ok tt
    → IsOpen config now price
unfolding check_issuance_gates
check_issuance_gates-IsOpen config now price h = record {
  reported = ground arith;
  not_future = ground (arith, -ℤ_parts now config.venue_state_at);
  fresh = ground arith;
  carry = ground arith;
  band = book_band config now price h;
}

within_hard_band_complete :
    (config : Config) (book : ℕ)
    → 0 < book
    → book < 2 ^ 64
    → config.hedged_notional < 2 ^ 64
    → config.delta_hard_bps < 2 ^ 16
    → abs_diff book config.hedged_notional * 10_000 < (config.delta_hard_bps + 1) * book
    → within_hard_band config book ≡ ok tt
unfolding within_hard_band
within_hard_band_complete config book p hb hh hd band =
    let quotient : abs_diff book config.hedged_notional * 10_000 / book ≤ config.delta_hard_bps =
      grind arith in
    let (d, e) = delta_bps_total book config.hedged_notional p hb hh (omega arith) in
    let q = delta_bps-within_iff book config.hedged_notional config.delta_hard_bps d e in
    let small = q.1 band in ground arith

check_hard_band_complete :
    (config : Config) (price : OraclePrice) (book : ℕ)
    → config.hedged_notional < 2 ^ 64
    → config.delta_hard_bps < 2 ^ 16
    → config_notional config price config.total_collateral ≡ ok book
    → InHardBand config book
    → check_hard_band config price ≡ ok tt
unfolding check_hard_band
check_hard_band_complete config price zero hh hd e band = ground arith
check_hard_band_complete config price (suc b) hh hd e (inl z) = ground arith
check_hard_band_complete config price (suc b) hh hd e (inr band) =
    let small =
      collateral_to_notional-lt config.total_collateral price.price price.expo
        config.collateral_decimals config.synthetic_decimals (suc b) e in
    let inside = within_hard_band_complete config (suc b) (omega arith) small hh hd band in
    ground arith

-- When the venue report exists, is not from the future and is no older than its limit, the carry
-- is at its floor or above, and the book is empty or in the hard band at the price (IsOpen), the
-- gates pass: none refuses for another reason, such as an overflow. The ranges are those of u64,
-- u16 and u32.
pub check_issuance_gates_complete :
    (config : Config) (now : ℤ) (price : OraclePrice)
    → config.hedged_notional < 2 ^ 64
    → config.delta_hard_bps < 2 ^ 16
    → config.max_venue_state_age_sec < 2 ^ 32
    → IsOpen config now price
    → check_issuance_gates config now price ≡ ok tt
unfolding check_issuance_gates
check_issuance_gates_complete config now price hh hd ha o = elim o.band [
  | inl empty ↦ ground (
    arith,
    eq_of_parts config.venue_state_at (pos 0),
    -ℤ_parts now config.venue_state_at,
    o.reported,
    o.not_future,
    o.fresh,
    o.carry,
  )
  | inr (book, e, band) ↦
      let inside = check_hard_band_complete config price book hh hd e band in
      ground (
        arith,
        eq_of_parts config.venue_state_at (pos 0),
        -ℤ_parts now config.venue_state_at,
        o.reported,
        o.not_future,
        o.fresh,
        o.carry,
      )
]
