-- ===== src/Math/Value.antt =====
-- The two conversions of programs/poyz/src/math.rs between collateral units and synthetic base
-- units, against the exact exchange rate: a fraction `rate_num / rate_den`.
use plott.Common.{ℕ, suc, ◌+◌, ◌*◌, ◌≤◌, ◌<◌, ◌≡◌, refl, ◌^◌, ok, arith, inl, inr, Result-cases}
use plott.Common.Int.{ℤ, pos, negsuc, ◌+ℤ◌, ◌-ℤ◌}
use plott.Common.Order.{div-mul-le, lt-suc_div-mul}
use native.Mathlib.Nat.{one-le-pow}
use plott.Math.{
  pow10, decimal_shift, scale_up, scale_down, divide_scaled, scale_divided, collateral_to_notional,
  notional_to_collateral,
}

-- The exact shift: `expo + synthetic_decimals - collateral_decimals`.
abbrev pub shift_of : ℤ → ℕ → ℕ → ℤ
shift_of expo cd sd = expo +ℤ pos sd -ℤ pos cd

-- Synthetic base units for one collateral unit, as a fraction.
abbrev pub rate_num : ℤ → ℤ → ℕ
rate_num (pos p) (pos k) = p * 10 ^ k
rate_num (pos p) (negsuc k) = p
rate_num (negsuc p) s = 0

abbrev pub rate_den : ℤ → ℕ
rate_den (pos k) = 1
rate_den (negsuc k) = 10 ^ suc k

pow10-eq : (e f : ℕ) → pow10 e ≡ ok f → f ≡ 10 ^ e
unfolding pow10
pow10-eq e f h = ground arith

decimal_shift-eq :
    (expo : ℤ) (cd sd : ℕ) (s : ℤ) → decimal_shift expo cd sd ≡ ok s → s ≡ shift_of expo cd sd
unfolding decimal_shift
decimal_shift-eq expo cd sd s h = ground arith

ten-pow_pos : (e : ℕ) → 0 < 10 ^ e
ten-pow_pos e = one-le-pow e 10 (omega arith)

scale_up-eq : (base k out : ℕ) → scale_up base k ≡ ok out → out ≡ base * 10 ^ k
unfolding scale_up
scale_up-eq base k out h = ground arith

scale_down_bounds :
    (base k out : ℕ)
    → scale_down base k ≡ ok out
    → (out * 10 ^ k ≤ base) × (base < (out + 1) * 10 ^ k)
unfolding scale_down
scale_down_bounds base k out h =
    ground (arith, div-mul-le base (10 ^ k), lt-suc_div-mul base (10 ^ k), ten-pow_pos k)

divide_scaled_bounds :
    (notional p k out : ℕ)
    → divide_scaled notional p k ≡ ok out
    → (out * (p * 10 ^ k) ≤ notional) × (notional < (out + 1) * (p * 10 ^ k))
unfolding divide_scaled
divide_scaled_bounds notional p k out h =
    ground (arith, div-mul-le notional (p * 10 ^ k), lt-suc_div-mul notional (p * 10 ^ k))

scale_divided_bounds :
    (notional p k out : ℕ)
    → scale_divided notional p k ≡ ok out
    → (out * p ≤ notional * 10 ^ k) × (notional * 10 ^ k < (out + 1) * p)
unfolding scale_divided
scale_divided_bounds notional p k out h =
    ground (arith, div-mul-le (notional * 10 ^ k) p, lt-suc_div-mul (notional * 10 ^ k) p)

-- What a successful conversion has computed, by the sign of the shift.
notional_inv :
    (amount p : ℕ) (s expo : ℤ) (cd sd n : ℕ)
    → decimal_shift expo cd sd ≡ ok s
    → collateral_to_notional amount (pos p) expo cd sd ≡ ok n
    → (n * rate_den s ≤ amount * rate_num (pos p) s)
      × (amount * rate_num (pos p) s < (n + 1) * rate_den s)
unfolding collateral_to_notional
notional_inv amount p (pos k) expo cd sd n e h = ground (arith, scale_up-eq (amount * p) k n)
notional_inv amount p (negsuc k) expo cd sd n e h =
    ground (arith, scale_down_bounds (amount * p) (suc k) n)

collateral_inv :
    (notional p : ℕ) (s expo : ℤ) (cd sd c : ℕ)
    → decimal_shift expo cd sd ≡ ok s
    → notional_to_collateral notional (pos p) expo cd sd ≡ ok c
    → (c * rate_num (pos p) s ≤ notional * rate_den s)
      × (notional * rate_den s < (c + 1) * rate_num (pos p) s)
unfolding notional_to_collateral
collateral_inv notional p (pos k) expo cd sd c e h =
    ground (arith, divide_scaled_bounds notional p k c)
collateral_inv notional p (negsuc k) expo cd sd c e h =
    ground (arith, scale_divided_bounds notional p (suc k) c)

-- A conversion that succeeds has a positive price and a shift in range.
notional_guards :
    (amount : ℕ) (price expo : ℤ) (cd sd n : ℕ)
    → collateral_to_notional amount price expo cd sd ≡ ok n
    → (p : ℕ) × (s : ℤ) × (price ≡ pos p) × (0 < p) × (decimal_shift expo cd sd ≡ ok s)
unfolding collateral_to_notional
notional_guards amount (pos p) expo cd sd n h = elim (Result-cases (decimal_shift expo cd sd)) [
  | inl (s, e) ↦ (p, s, refl, ground arith, e)
  | inr (f, e) ↦ ground arith
]
notional_guards amount (negsuc p) expo cd sd n h = ground arith

collateral_guards :
    (notional : ℕ) (price expo : ℤ) (cd sd c : ℕ)
    → notional_to_collateral notional price expo cd sd ≡ ok c
    → (p : ℕ) × (s : ℤ) × (price ≡ pos p) × (0 < p) × (decimal_shift expo cd sd ≡ ok s)
unfolding notional_to_collateral
collateral_guards notional (pos p) expo cd sd c h = elim (Result-cases (decimal_shift expo cd sd)) [
  | inl (s, e) ↦ (p, s, refl, ground arith, e)
  | inr (f, e) ↦ ground arith
]
collateral_guards notional (negsuc p) expo cd sd c h = ground arith

-- The notional is the exact value at the rate, rounded down.
abbrev pub IsNotional : ℕ → ℤ → ℤ → ℕ → ℕ → ℕ → Type 0
IsNotional amount price expo cd sd n =
    let s = shift_of expo cd sd in
    (0 < rate_num price s)
    × (n * rate_den s ≤ amount * rate_num price s)
    × (amount * rate_num price s < (n + 1) * rate_den s)

-- The collateral is the exact amount at the inverse rate, rounded down.
abbrev pub IsCollateral : ℕ → ℤ → ℤ → ℕ → ℕ → ℕ → Type 0
IsCollateral notional price expo cd sd c =
    let s = shift_of expo cd sd in
    (0 < rate_num price s)
    × (c * rate_num price s ≤ notional * rate_den s)
    × (notional * rate_den s < (c + 1) * rate_num price s)

rate_num_pos : (p : ℕ) (s : ℤ) → 0 < p → 0 < rate_num (pos p) s
rate_num_pos p (pos k) h = grind (arith, ten-pow_pos k)
rate_num_pos p (negsuc k) h = h

pub rate_den_pos : (s : ℤ) → 0 < rate_den s
rate_den_pos (pos k) = omega arith
rate_den_pos (negsuc k) = ten-pow_pos (suc k)

pub collateral_to_notional-IsNotional :
    (amount : ℕ) (price expo : ℤ) (cd sd n : ℕ)
    → collateral_to_notional amount price expo cd sd ≡ ok n
    → IsNotional amount price expo cd sd n
collateral_to_notional-IsNotional amount price expo cd sd n h =
    let (p, s, ep, pp, es) = notional_guards amount price expo cd sd n h in
    rw (ep, ← decimal_shift-eq expo cd sd s es)
      (let (lo, hi) = notional_inv amount p s expo cd sd n es (rw ep at h) in
        (rate_num_pos p s pp, lo, hi))

pub notional_to_collateral-IsCollateral :
    (notional : ℕ) (price expo : ℤ) (cd sd c : ℕ)
    → notional_to_collateral notional price expo cd sd ≡ ok c
    → IsCollateral notional price expo cd sd c
notional_to_collateral-IsCollateral notional price expo cd sd c h =
    let (p, s, ep, pp, es) = collateral_guards notional price expo cd sd c h in
    rw (ep, ← decimal_shift-eq expo cd sd s es)
      (let (lo, hi) = collateral_inv notional p s expo cd sd c es (rw ep at h) in
        (rate_num_pos p s pp, lo, hi))

-- A notional that is returned is a u64.
pub collateral_to_notional-lt :
    (amount : ℕ) (price expo : ℤ) (cd sd n : ℕ)
    → collateral_to_notional amount price expo cd sd ≡ ok n
    → n < 2 ^ 64
unfolding collateral_to_notional
collateral_to_notional-lt amount price expo cd sd n h = ground arith
