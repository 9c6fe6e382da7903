-- ===== src/Examples.antt =====
-- A concrete runtime and concrete accounts, at which the tests beside each component run the handlers.
pub mod Ledger
pub mod Setup
use plott.Common.{Bool, true, false, ◌≡◌, refl, Result, ok, err}

abbrev pub is_ok : {A : Type 0} → Result A → Bool
is_ok (ok a) = true
is_ok (err e) = false

-- The value of a result that is one.
abbrev pub value_of : {A : Type 0} → (r : Result A) → is_ok r ≡ true → A
value_of (ok a) h = a
value_of (err e) h = cc

pub ok-value_of : {A : Type 0} → (r : Result A) (h : is_ok r ≡ true) → r ≡ ok (value_of r h)
ok-value_of (ok a) h = refl
ok-value_of (err e) h = cc
