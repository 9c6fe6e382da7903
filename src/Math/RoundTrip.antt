-- ===== src/Math/RoundTrip.antt =====
-- Converting there and back (programs/poyz/src/math.rs) never creates value.
use plott.Common.{ℕ, ◌+◌, ◌*◌, ◌≤◌, ◌<◌, ◌≡◌, ok, arith}
use plott.Common.Int.{ℤ}
use plott.Math.{collateral_to_notional, notional_to_collateral}
use plott.Math.Value.{
  shift_of, rate_num, rate_den, rate_den_pos, collateral_to_notional-IsNotional,
  notional_to_collateral-IsCollateral,
}

cancel_le : (k a b : ℕ) → 0 < k → a * k ≤ b * k → a ≤ b
cancel_le k a b h m = grind arith

cancel_lt : (k a b : ℕ) → a * k < b * k → a < b
cancel_lt k a b m = grind arith

-- Collateral converted to synthetic units and back at the same price is no more than was put in.
pub notional_to_collateral-collateral_to_notional :
    (amount : ℕ) (price expo : ℤ) (cd sd n back : ℕ)
    → collateral_to_notional amount price expo cd sd ≡ ok n
    → notional_to_collateral n price expo cd sd ≡ ok back
    → back ≤ amount
notional_to_collateral-collateral_to_notional amount price expo cd sd n back h k =
    let u = collateral_to_notional-IsNotional amount price expo cd sd n h in
    let v = notional_to_collateral-IsCollateral n price expo cd sd back k in
    cancel_le (rate_num price (shift_of expo cd sd)) back amount u.0 (omega arith)

-- Synthetic units converted to collateral and back are no more than were put in.
pub collateral_to_notional-notional_to_collateral :
    (notional : ℕ) (price expo : ℤ) (cd sd c back : ℕ)
    → notional_to_collateral notional price expo cd sd ≡ ok c
    → collateral_to_notional c price expo cd sd ≡ ok back
    → back ≤ notional
collateral_to_notional-notional_to_collateral notional price expo cd sd c back h k =
    let u = notional_to_collateral-IsCollateral notional price expo cd sd c h in
    let v = collateral_to_notional-IsNotional c price expo cd sd back k in
    let s = shift_of expo cd sd in
    cancel_le (rate_den s) back notional (rate_den_pos s) (omega arith)

-- More collateral is worth no less.
pub collateral_to_notional_mono :
    (a b : ℕ) (price expo : ℤ) (cd sd n m : ℕ)
    → collateral_to_notional a price expo cd sd ≡ ok n
    → collateral_to_notional b price expo cd sd ≡ ok m
    → a ≤ b
    → n ≤ m
collateral_to_notional_mono a b price expo cd sd n m h k le =
    let u = collateral_to_notional-IsNotional a price expo cd sd n h in
    let v = collateral_to_notional-IsNotional b price expo cd sd m k in
    let s = shift_of expo cd sd in
    let worth : a * rate_num price s ≤ b * rate_num price s = grind arith in
    let below : n < m + 1 = cancel_lt (rate_den s) n (m + 1) (omega arith) in omega arith
