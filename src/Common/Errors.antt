-- ===== src/Common/Errors.antt =====
-- The error codes (programs/poyz/src/errors.rs), the other ways in which an instruction aborts, and the
-- results of fallible code. An instruction that aborts is rolled back by the runtime, so a result
-- carries the new state on success only.
use mathlib.Core.Path.{◌≡◌, refl}
use mathlib.Core.Bool.{Bool, true, false}
use mathlib.Core.Logic.{◌⊎◌, inl, inr}
use mathlib.Core.Option.{Option, none, some}

pub data PoyzError : Type 0 where
  unauthorized no_pending_authority not_pending_authority guardian_cannot_unpause : PoyzError
  mint_paused redeem_paused vaults_not_ready vault_already_initialized invalid_bps : PoyzError
  invalid_collateral_ratio invalid_delta_threshold invalid_price_age invalid_decimals : PoyzError
  invalid_mint_authority freeze_authority_set token_program_mismatch zero_amount : PoyzError
  limit_exceeded oracle_account_mismatch oracle_owner_mismatch : PoyzError
  oracle_discriminator_mismatch oracle_deserialize_failed oracle_not_fully_verified : PoyzError
  oracle_feed_mismatch oracle_invalid_price oracle_price_stale oracle_price_from_future : PoyzError
  oracle_confidence_too_wide venue_not_enabled venue_state_missing venue_state_stale : PoyzError
  venue_state_from_future venue_state_not_monotonic not_authorized_reporter : PoyzError
  carry_out_of_range carry_below_floor venue_capacity_exceeded delta_outside_hard_band : PoyzError
  insufficient_bond keeper_inactive keeper_mismatch slash_exceeds_bond unknown_slash_reason :
      PoyzError
  unbond_cooldown_active bond_below_minimum proof_sequence_mismatch : PoyzError
  proof_slot_not_monotonic empty_proof_hash delta_threshold_exceeded delta_out_of_range : PoyzError
  proof_collateral_mismatch proof_delta_mismatch request_expired request_not_expired : PoyzError
  settlement_delay_active hedge_fill_too_small hedge_fill_too_large slippage_exceeded : PoyzError
  redeem_exceeds_supply redeem_exceeds_collateral supply_cap_exceeded no_stakers : PoyzError
  insufficient_stake nothing_to_claim unstake_cooldown_active no_pending_unstake : PoyzError
  insufficient_buffer buffer_locked buffer_draw_cap_exceeded math_overflow : PoyzError

-- Why an instruction aborts: a code of the program, a failed account constraint of Anchor (an account
-- that `init` finds in use, one that does not exist, a token account of the wrong mint or owner), a
-- failed call of the token program, or an arithmetic overflow that panics (`overflow-checks = true`).
pub data Fault : Type 0 where
  poyz : PoyzError → Fault
  account_in_use account_not_initialized token_constraint : Fault
  token_program_error : Fault
  panic : Fault

pub data Result {ℓ} (A : Type ℓ) : Type ℓ where
  ok : A → Result A
  err : Fault → Result A

-- A check of the Anchor framework, or of the program with a fault of any kind.
abbrev pub constraint : Bool → Fault → Result (Unit {0})
constraint false fault = err fault
constraint true fault = ok tt

-- `require!(holds, PoyzError::code)`, and the account constraints `... @ PoyzError::code`.
abbrev pub require : Bool → PoyzError → Result (Unit {0})
require false code = err (poyz code)
require true code = ok tt

-- `found.ok_or(fault)`
abbrev pub ok_or {ℓ} : {A : Type ℓ} → Option A → Fault → Result A
ok_or (some found) fault = ok found
ok_or none fault = err fault

-- The `?` operator: the first fault ends the handler.
infixl 5 ◌>>=◌ ◌>>◌
abbrev pub ◌>>=◌ {κ ℓ} : {In : Type κ} {Out : Type ℓ} → Result In → (In → Result Out) → Result Out
err fault >>= next = err fault
ok value >>= next = next value

abbrev pub ◌>>◌ {ℓ} : {Out : Type ℓ} → Result (Unit {0}) → Result Out → Result Out
check >> rest = check >>= λ passed. rest

pub Result-cases {ℓ} :
    {A : Type ℓ} (r : Result A) → ((a : A) × (r ≡ ok a)) ⊎ ((e : Fault) × (r ≡ err e))
Result-cases (ok a) = inl (a, refl)
Result-cases (err e) = inr (e, refl)
