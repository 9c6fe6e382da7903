-- ===== src/Math/Delta.antt =====
-- The signed deviation of the book, `delta_bps`, and the width of the oracle's confidence interval,
-- `confidence_bps` (programs/poyz/src/math.rs): what a bound on each says exactly.
use plott.Common.{ℕ, ◌+◌, ◌*◌, ◌/◌, ◌≤◌, ◌<◌, ◌≡◌, ◌^◌, ◌↔◌, ◌-◌, ok, arith}
use plott.Common.Int.{ℤ, pos, unsigned_abs, scale_ℤ, tdiv, ◌-ℤ◌, ◌≤ℤ◌}
use plott.Common.Checked.{abs_diff}
use plott.Math.{delta_bps, confidence_bps}

delta_inv :
    (collateral hedged : ℕ) (d : ℤ)
    → delta_bps collateral hedged ≡ ok d
    → (0 < collateral) × (d ≡ tdiv (scale_ℤ (pos collateral -ℤ pos hedged) 10_000) collateral)
unfolding delta_bps
delta_inv collateral hedged d h = ground arith

unsigned_abs-tdiv :
    (c h : ℕ) → unsigned_abs (tdiv (scale_ℤ (pos c -ℤ pos h) 10_000) c) ≡ abs_diff c h * 10_000 / c
unfolding tdiv scale_ℤ ◌-ℤ◌
unsigned_abs-tdiv c h = ground arith

quotient-le_iff : (x c band : ℕ) → 0 < c → (x / c ≤ band) ↔ (x < (band + 1) * c)
quotient-le_iff x c band h = (λ k. grind arith, λ k. grind arith)

-- The deviation is within a band exactly when the two legs differ by less than `band + 1` basis
-- points of the collateral leg, whichever of the two is larger.
pub delta_bps-within_iff :
    (collateral hedged band : ℕ) (d : ℤ)
    → delta_bps collateral hedged ≡ ok d
    → (unsigned_abs d ≤ band) ↔ (abs_diff collateral hedged * 10_000 < (band + 1) * collateral)
delta_bps-within_iff collateral hedged band d h =
    let (p, e) = delta_inv collateral hedged d h in
    rw (e, unsigned_abs-tdiv collateral hedged)
      (quotient-le_iff (abs_diff collateral hedged * 10_000) collateral band p)

-- An under-hedged book has a deviation of 0 or more, an over-hedged one of 0 or less.
pub delta_bps-sign :
    (collateral hedged : ℕ) (d : ℤ)
    → delta_bps collateral hedged ≡ ok d
    → (hedged ≤ collateral → pos 0 ≤ℤ d) × (collateral ≤ hedged → d ≤ℤ pos 0)
unfolding tdiv scale_ℤ ◌-ℤ◌
delta_bps-sign collateral hedged d h =
    let (p, e) = delta_inv collateral hedged d h in (λ k. ground arith, λ k. ground arith)

-- On u64 amounts it fails on an empty book and outside the i32 range only.
pub delta_bps_total :
    (collateral hedged : ℕ)
    → 0 < collateral
    → collateral < 2 ^ 64
    → hedged < 2 ^ 64
    → abs_diff collateral hedged * 10_000 / collateral < 2 ^ 31
    → (d : ℤ) × (delta_bps collateral hedged ≡ ok d)
unfolding delta_bps tdiv scale_ℤ ◌-ℤ◌
delta_bps_total c h pc wc wh fits = (tdiv (scale_ℤ (pos c -ℤ pos h) 10_000) c, ground arith)

confidence_inv :
    (conf p w : ℕ)
    → confidence_bps conf (pos p) ≡ ok w
    → (0 < p) × (w ≡ (conf * 10_000 + (p - 1)) / p)
unfolding confidence_bps
confidence_inv conf p w h = ground arith

-- The confidence interval is within a bound exactly when it is so as an exact fraction of the
-- price: since the quotient is rounded up, no interval that is too wide passes by rounding.
pub confidence_bps-le_iff :
    (conf p bound w : ℕ)
    → confidence_bps conf (pos p) ≡ ok w
    → (w ≤ bound) ↔ (conf * 10_000 ≤ bound * p)
confidence_bps-le_iff conf p bound w h =
    let (pp, e) = confidence_inv conf p w h in
    let q = quotient-le_iff (conf * 10_000 + (p - 1)) p bound pp in
    rw e (λ k. let m = q.0 k in omega arith, λ k. q.1 (omega arith))

-- An interval within a u16 bound is computed without overflow.
pub confidence_bps_total :
    (conf p bound : ℕ)
    → conf < 2 ^ 64
    → 0 < p
    → p < 2 ^ 63
    → bound < 2 ^ 16
    → conf * 10_000 ≤ bound * p
    → (w : ℕ) × (confidence_bps conf (pos p) ≡ ok w) × (w ≤ bound)
unfolding confidence_bps
confidence_bps_total conf p bound hc pp hp hb h =
    let small : (conf * 10_000 + (p - 1)) / p ≤ bound =
      (quotient-le_iff (conf * 10_000 + (p - 1)) p bound pp).1 (omega arith) in
    ((conf * 10_000 + (p - 1)) / p, ground arith, small)
