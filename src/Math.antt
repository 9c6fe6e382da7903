-- ===== src/Math.antt =====
-- The fixed-point helpers (programs/poyz/src/math.rs). Amounts are u64, intermediate values u128 or
-- i128; each operation checks its range, as the source does. The proofs are in the child modules.
pub mod Bps
pub mod Value
pub mod RoundTrip
pub mod Delta
pub mod Accumulator
mod Tests
use plott.Common.{
  ℕ, ◌+◌, ◌-◌, ◌*◌, ◌^◌, ◌/◌, leb, ltb, if◌then◌else◌, Result, ok, err, ◌>>=◌, ◌>>◌, require, poyz,
  math_overflow, oracle_invalid_price, invalid_collateral_ratio, zero_amount, delta_out_of_range,
  no_stakers,
}
use plott.Common.Int.{ℤ, pos, negsuc, ◌-ℤ◌, scale_ℤ, tdiv, ltb_ℤ, leb_ℤ, unsigned_abs}
use plott.Common.Checked.{
  try_from, checked_add, checked_mul, checked_div, in_range_ℤ, try_from_ℤ, checked_add_ℤ,
  checked_sub_ℤ,
}

abbrev pub bps_denominator : ℕ
bps_denominator = 10_000

-- The scale of the funding accumulator.
abbrev pub acc_scale : ℕ
acc_scale = 1_000_000_000_000

abbrev pub max_decimal_shift : ℕ
max_decimal_shift = 30

unfoldable pub pow10 : ℕ → Result ℕ
pow10 exp = do require (leb exp max_decimal_shift) math_overflow; try_from 128 (10 ^ exp)

unfoldable pub decimal_shift : ℤ → ℕ → ℕ → Result ℤ
decimal_shift expo collateral_decimals synthetic_decimals = do
  v ← checked_add_ℤ 31 expo (pos synthetic_decimals)
  checked_sub_ℤ 31 v (pos collateral_decimals)

-- `u128::try_from(price)`
abbrev unsigned : ℤ → Result ℕ
unsigned (pos n) = ok n
unsigned (negsuc n) = err (poyz math_overflow)

-- The branches on the sign of the shift, each with its own order of checks.
unfoldable pub scale_up : ℕ → ℕ → Result ℕ
unfolding pow10
scale_up base shift = do factor ← pow10 shift; checked_mul 128 base factor

unfoldable pub scale_down : ℕ → ℕ → Result ℕ
unfolding pow10
scale_down base shift = do factor ← pow10 shift; checked_div base factor

unfoldable pub collateral_to_notional : ℕ → ℤ → ℤ → ℕ → ℕ → Result ℕ
collateral_to_notional collateral_amount price expo collateral_decimals synthetic_decimals = do
  require (ltb_ℤ (pos 0) price) oracle_invalid_price
  price_u ← unsigned price
  shift ← decimal_shift expo collateral_decimals synthetic_decimals
  base ← checked_mul 128 collateral_amount price_u
  out ←
      if leb_ℤ (pos 0) shift
      then scale_up base (unsigned_abs shift)
      else scale_down base (unsigned_abs shift)
  try_from 64 out

unfoldable pub divide_scaled : ℕ → ℕ → ℕ → Result ℕ
unfolding pow10
divide_scaled notional price_u shift = do
  factor ← pow10 shift
  denominator ← checked_mul 128 price_u factor
  require (ltb 0 denominator) math_overflow
  checked_div notional denominator

unfoldable pub scale_divided : ℕ → ℕ → ℕ → Result ℕ
unfolding pow10
scale_divided notional price_u shift = do
  factor ← pow10 shift
  numerator ← checked_mul 128 notional factor
  checked_div numerator price_u

unfoldable pub notional_to_collateral : ℕ → ℤ → ℤ → ℕ → ℕ → Result ℕ
notional_to_collateral notional price expo collateral_decimals synthetic_decimals = do
  require (ltb_ℤ (pos 0) price) oracle_invalid_price
  price_u ← unsigned price
  shift ← decimal_shift expo collateral_decimals synthetic_decimals
  out ←
      if leb_ℤ (pos 0) shift
      then divide_scaled notional price_u (unsigned_abs shift)
      else scale_divided notional price_u (unsigned_abs shift)
  try_from 64 out

unfoldable pub mul_bps_floor : ℕ → ℕ → Result ℕ
mul_bps_floor amount bps = do
  numerator ← checked_mul 128 amount bps
  out ← checked_div numerator bps_denominator
  try_from 64 out

unfoldable pub mul_bps_ceil : ℕ → ℕ → Result ℕ
mul_bps_ceil amount bps = do
  numerator ← checked_mul 128 amount bps
  rounded ← checked_add 128 numerator (bps_denominator - 1)
  out ← checked_div rounded bps_denominator
  try_from 64 out

unfoldable pub div_bps_floor : ℕ → ℕ → Result ℕ
div_bps_floor amount ratio_bps = do
  require (ltb 0 ratio_bps) invalid_collateral_ratio
  numerator ← checked_mul 128 amount bps_denominator
  out ← checked_div numerator ratio_bps
  try_from 64 out

unfoldable pub confidence_bps : ℕ → ℤ → Result ℕ
confidence_bps conf price = do
  require (ltb_ℤ (pos 0) price) oracle_invalid_price
  price_u ← unsigned price
  numerator ← checked_mul 128 conf bps_denominator
  rounded ← checked_add 128 numerator (price_u - 1)
  out ← checked_div rounded price_u
  try_from 64 out

-- `i32::try_from(deviation)`
abbrev to_delta : ℤ → Result ℤ
to_delta d = if in_range_ℤ 31 d then ok d else err (poyz delta_out_of_range)

-- The book's signed deviation. The divisor is above 0 when `checked_div` is reached, so that it
-- cannot fail; the i128 range is checked at each step.
unfoldable pub delta_bps : ℕ → ℕ → Result ℤ
delta_bps collateral_notional hedged_notional = do
  require (ltb 0 collateral_notional) zero_amount
  difference ← checked_sub_ℤ 127 (pos collateral_notional) (pos hedged_notional)
  scaled ← try_from_ℤ 127 (scale_ℤ difference bps_denominator)
  to_delta (tdiv scaled collateral_notional)

unfoldable pub acc_increment : ℕ → ℕ → Result ℕ
acc_increment amount total_staked = do
  require (ltb 0 total_staked) no_stakers
  scaled ← checked_mul 128 amount acc_scale
  checked_div scaled total_staked

unfoldable pub acc_entitlement : ℕ → ℕ → Result ℕ
acc_entitlement stake_amount acc_funding_per_share = do
  scaled ← checked_mul 128 stake_amount acc_funding_per_share
  checked_div scaled acc_scale
