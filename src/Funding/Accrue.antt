-- ===== src/Funding/Accrue.antt =====
-- What a position is credited (`accrue` of programs/poyz/src/instructions/funding.rs).
use plott.Common.{ℕ, ◌+◌, ◌-◌, ◌*◌, ◌≤◌, ◌<◌, ◌≡◌, ok, arith, Result-cases, inl, inr}
use plott.Math.{acc_scale, acc_entitlement}
use plott.Math.Accumulator.{acc_entitlement_bounds}
use plott.State.{StakePosition}
use plott.Funding.{accrue, credit}

credit-eq : (u p out : ℕ) → credit u p ≡ ok out → out ≡ u + p
unfolding credit
credit-eq u p out h = ground arith

-- The entitlement becomes the debt, what it exceeds the old debt by is credited, and nothing else of
-- the position changes.
pub accrue-credited :
    (position : StakePosition) (acc : ℕ) (after : StakePosition)
    → accrue position acc ≡ ok after
    → (acc_entitlement position.amount acc ≡ ok after.reward_debt)
      × (position.reward_debt ≤ after.reward_debt)
      × (after.unclaimed + position.reward_debt ≡ position.unclaimed + after.reward_debt)
      × (after ≡ record position { reward_debt = after.reward_debt; unclaimed = after.unclaimed })
unfolding accrue
accrue-credited position acc after h = elim (Result-cases (acc_entitlement position.amount acc)) [
  | inl (e, k) ↦ accrue-by e k
  | inr (f, k) ↦ ground arith
]
  where
    accrue-by :
        (e : ℕ)
        → acc_entitlement position.amount acc ≡ ok e
        → (acc_entitlement position.amount acc ≡ ok after.reward_debt)
          × (position.reward_debt ≤ after.reward_debt)
          × (after.unclaimed + position.reward_debt ≡ position.unclaimed + after.reward_debt)
          × (after
              ≡ record position { reward_debt = after.reward_debt; unclaimed = after.unclaimed })
    accrue-by e k = ground (arith, credit-eq position.unclaimed (e - position.reward_debt))

-- For a position whose debt was taken at an earlier value of the accumulator, the credit is within one
-- unit of the exact share of what was settled since: it can be above it as well as below, because
-- the debt was rounded down too.
pub accrue-within_unit :
    (position : StakePosition) (old acc : ℕ) (after : StakePosition)
    → acc_entitlement position.amount old ≡ ok position.reward_debt
    → old ≤ acc
    → accrue position acc ≡ ok after
    → let credited = after.unclaimed - position.unclaimed in
      let exact = position.amount * (acc - old) in
      (credited * acc_scale < exact + acc_scale) × (exact < (credited + 1) * acc_scale)
accrue-within_unit position old acc after owed up h =
    let (now, grown, credited, frame) = accrue-credited position acc after h in
    let (a0, a1) = acc_entitlement_bounds position.amount old position.reward_debt owed in
    let (b0, b1) = acc_entitlement_bounds position.amount acc after.reward_debt now in
    let exact : position.amount * acc ≡ position.amount * old + position.amount * (acc - old) =
      grind arith in
    let diff : after.unclaimed - position.unclaimed ≡ after.reward_debt - position.reward_debt =
      omega (arith, credited, grown) in
    rw diff (omega arith, omega arith)
