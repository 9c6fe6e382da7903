-- ===== src/Common/Checked.antt =====
-- Rust's checked integer arithmetic. An unsigned integer is a native number and a signed one an
-- integer; each operation writes out the range that it checks. All of them fail with
-- `PoyzError::MathOverflow`, as every call site in programs/poyz/src maps them.
use plott.Common.{
  ℕ, ◌+◌, ◌-◌, ◌*◌, ◌/◌, ◌^◌, Bool, ltb, leb, ◌==◌, ◌&&◌, if◌then◌else◌, Result, ok, err, poyz,
  math_overflow,
}
use plott.Common.Int.{ℤ, pos, negsuc, ◌+ℤ◌, ◌-ℤ◌, leb_ℤ}

-- The values of an unsigned type of `w` bits are those below `2 ^ w`.
abbrev pub in_range : ℕ → ℕ → Bool
in_range w x = ltb x (2 ^ w)

-- `u64::try_from(x)` and the like, and what a checked operation does with the exact result.
abbrev pub try_from : ℕ → ℕ → Result ℕ
try_from w x = if in_range w x then ok x else err (poyz math_overflow)

abbrev pub checked_add : ℕ → ℕ → ℕ → Result ℕ
checked_add w a b = try_from w (a + b)

abbrev pub checked_sub : ℕ → ℕ → Result ℕ
checked_sub a b = if leb b a then ok (a - b) else err (poyz math_overflow)

abbrev pub checked_mul : ℕ → ℕ → ℕ → Result ℕ
checked_mul w a b = try_from w (a * b)

abbrev pub checked_div : ℕ → ℕ → Result ℕ
checked_div a b = if b == 0 then err (poyz math_overflow) else ok (a / b)

-- The values of a signed type of `w + 1` bits lie from `- 2 ^ w` to `2 ^ w - 1`.
abbrev pub in_range_ℤ : ℕ → ℤ → Bool
in_range_ℤ w x = leb_ℤ (negsuc (2 ^ w - 1)) x && leb_ℤ x (pos (2 ^ w - 1))

abbrev pub try_from_ℤ : ℕ → ℤ → Result ℤ
try_from_ℤ w x = if in_range_ℤ w x then ok x else err (poyz math_overflow)

abbrev pub checked_add_ℤ : ℕ → ℤ → ℤ → Result ℤ
checked_add_ℤ w a b = try_from_ℤ w (a +ℤ b)

abbrev pub checked_sub_ℤ : ℕ → ℤ → ℤ → Result ℤ
checked_sub_ℤ w a b = try_from_ℤ w (a -ℤ b)

-- `a.abs_diff(b)`
abbrev pub abs_diff : ℕ → ℕ → ℕ
abs_diff a b = (a - b) + (b - a)
