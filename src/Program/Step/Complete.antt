-- ===== src/Program/Step/Complete.antt =====
-- That a step is what its instruction does.
use plott.Common.{◌≡◌, ok, arith}
use plott.Runtime.{Runtime, Clock}
use plott.Program.World.{World}
use plott.Program.Execute.{Instruction, execute}
use plott.Program.Step.{Step}

module _ {T : Type 0} (rt : Runtime T) (clock : Clock) (w w' : World T) where
  Step-execute : (i : Instruction) → Step rt clock w w' i → execute rt clock i w ≡ ok w'
  unfolding execute
  Step-execute _ (Step.administered change config k e) = ground arith
  Step-execute _ (Step.keeper_registered ctx amount d h0 k e) = ground arith
  Step-execute _ (Step.keeper_bonded ctx amount keeper d h0 k e) = ground arith
  Step-execute _ (Step.keeper_unbonded ctx amount keeper d h0 k e) = ground arith
  Step-execute _ (Step.keeper_slashed ctx amount reason evidence keeper d h0 k e) = ground arith
  Step-execute _ (Step.proof_committed ctx claim keeper d h0 h1 k e) = ground arith
  Step-execute _ (Step.mint_requested ctx nonce amount least d h0 k e) = ground arith
  Step-execute _ (Step.mint_confirmed ctx nonce hash venue_id filled keeper request d h0 h1 k e) =
      ground arith
  Step-execute _ (Step.mint_cancelled ctx nonce request d h0 k e) = ground arith
  Step-execute _ (Step.redeem_requested ctx nonce amount least d h0 k e) = ground arith
  Step-execute _
        (Step.redeem_confirmed ctx nonce hash venue_id unwound keeper request d h0 h1 k e) =
      ground arith
  Step-execute _ (Step.redeem_cancelled ctx nonce request d h0 k e) = ground arith
  Step-execute _ (Step.funding_settled ctx amount d k e) = ground arith
  Step-execute _ (Step.staked ctx amount d k e) = ground arith
  Step-execute _ (Step.unstake_requested ctx amount position d h0 k e) = ground arith
  Step-execute _ (Step.unstaked ctx position d h0 k e) = ground arith
  Step-execute _ (Step.funding_claimed ctx position d h0 k e) = ground arith
  Step-execute _ (Step.buffer_deposited ctx amount d k e) = ground arith
  Step-execute _ (Step.buffer_withdrawn ctx amount d k e) = ground arith
