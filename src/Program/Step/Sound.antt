-- ===== src/Program/Step/Sound.antt =====
-- That an instruction that succeeds is one of the steps.
pub mod Records
pub mod Requests
pub mod Funds
use plott.Common.{◌≡◌, ◌⊎◌, [], ◌∷◌, ok, arith, Result-cases, Option-cases, ◌>>=◌}
use plott.Runtime.{Runtime, Clock}
use plott.Keepers
use plott.Proof
use plott.Mint
use plott.Redeem
use plott.Funding
use plott.Buffer
use plott.Program.World.{World}
use plott.Program.Execute.{Instruction, execute}
use plott.Program.Execute
use plott.Program.Step.{Step}
use plott.Program.Step.Sound.Records.{
  administer_step, keeper_register_step, keeper_bond_step, keeper_unbond_step, keeper_slash_step,
  commit_rebalance_proof_step,
}
use plott.Program.Step.Sound.Requests.{
  mint_request_step, mint_confirm_step, mint_cancel_step, redeem_request_step, redeem_confirm_step,
  redeem_cancel_step,
}
use plott.Program.Step.Sound.Funds.{
  settle_funding_step, stake_step, request_unstake_step, unstake_step, claim_funding_step,
  buffer_deposit_step, buffer_withdraw_step,
}

module _ {T : Type 0} (rt : Runtime T) (clock : Clock) (w w' : World T) where
  pub execute-Step :
      (instruction : Instruction)
      → execute rt clock instruction w ≡ ok w'
      → Step rt clock w w' instruction
  unfolding execute
  execute-Step (Instruction.initialize_again ctx params) h = ground arith
  execute-Step (Instruction.administration change) h = administer_step rt clock w w' change h
  execute-Step (Instruction.keeper_register ctx amount) h =
      keeper_register_step rt clock w w' ctx amount h
  execute-Step (Instruction.keeper_bond ctx amount) h = keeper_bond_step rt clock w w' ctx amount h
  execute-Step (Instruction.keeper_unbond ctx amount) h =
      keeper_unbond_step rt clock w w' ctx amount h
  execute-Step (Instruction.keeper_slash ctx amount reason evidence) h =
      keeper_slash_step rt clock w w' ctx amount reason evidence h
  execute-Step (Instruction.commit_rebalance_proof ctx claim) h =
      commit_rebalance_proof_step rt clock w w' ctx claim h
  execute-Step (Instruction.mint_request ctx nonce amount least) h =
      mint_request_step rt clock w w' ctx nonce amount least h
  execute-Step (Instruction.mint_confirm ctx nonce hash venue_id filled) h =
      mint_confirm_step rt clock w w' ctx nonce hash venue_id filled h
  execute-Step (Instruction.mint_cancel ctx nonce) h = mint_cancel_step rt clock w w' ctx nonce h
  execute-Step (Instruction.redeem_request ctx nonce amount least) h =
      redeem_request_step rt clock w w' ctx nonce amount least h
  execute-Step (Instruction.redeem_confirm ctx nonce hash venue_id unwound) h =
      redeem_confirm_step rt clock w w' ctx nonce hash venue_id unwound h
  execute-Step (Instruction.redeem_cancel ctx nonce) h =
      redeem_cancel_step rt clock w w' ctx nonce h
  execute-Step (Instruction.settle_funding ctx amount) h =
      settle_funding_step rt clock w w' ctx amount h
  execute-Step (Instruction.stake ctx amount) h = stake_step rt clock w w' ctx amount h
  execute-Step (Instruction.request_unstake ctx amount) h =
      request_unstake_step rt clock w w' ctx amount h
  execute-Step (Instruction.unstake ctx) h = unstake_step rt clock w w' ctx h
  execute-Step (Instruction.claim_funding ctx) h = claim_funding_step rt clock w w' ctx h
  execute-Step (Instruction.buffer_deposit ctx amount) h =
      buffer_deposit_step rt clock w w' ctx amount h
  execute-Step (Instruction.buffer_withdraw ctx amount) h =
      buffer_withdraw_step rt clock w w' ctx amount h
