-- ===== src/Common/Order.antt =====
-- Products and quotients, for the rounding of fixed-point arithmetic.
use plott.Common.{ℕ, ◌+◌, ◌*◌, ◌/◌, ◌≤◌, ◌<◌, arith}

-- `a / b` is the greatest `q` with `q * b ≤ a`.
pub div-mul-le : (a b : ℕ) → (a / b) * b ≤ a
div-mul-le a b = grind arith

pub lt-suc_div-mul : (a b : ℕ) → 0 < b → a < (a / b + 1) * b
lt-suc_div-mul a b h = grind arith

pub le-div : (q a b : ℕ) → 0 < b → q * b ≤ a → q ≤ a / b
le-div q a b h k = grind arith

pub div-le : (q a b : ℕ) → 0 < b → a ≤ q * b → a / b ≤ q
div-le q a b h k = grind arith
