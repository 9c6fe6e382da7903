-- ===== src/Program/Paused.antt =====
-- What the two pauses stop.
use plott.Common.{ok, ◌≡◌, true, arith}
use plott.Runtime.{Runtime, Clock}
use plott.Keepers.Books.{
  keeper_register-ledger, keeper_bond-ledger, keeper_unbond-ledger, keeper_slash-ledger,
}
use plott.Proof.Books.{commit_rebalance_proof-ledger}
use plott.Mint.Books.{mint_request-ledger, mint_confirm-mint_to, mint_cancel-ledger}
use plott.Redeem.Books.{redeem_request-ledger, redeem_confirm-ledger, redeem_cancel-ledger}
use plott.Funding.Books.{
  settle_funding-ledger, stake-ledger, request_unstake-ledger, claim_funding-ledger,
}
use plott.Funding.Stakes.{unstake_paid}
use plott.Buffer.Books.{buffer_deposit-ledger, buffer_withdraw-ledger}
use plott.Program.Store.{find}
use plott.Program.World.{World, is_position}
use plott.Program.Execute.{or_new}
use plott.Program.Administer.Kept.{administer-Kept}
use plott.Program.Execute.{Instruction, execute}
use plott.Program.Step.{Step}
use plott.Program.Step.Sound.{execute-Step}

module _ {T : Type 0} (rt : Runtime T) (clock : Clock) (w : World T) where
  Step-paused :
      (w' : World T) {i : Instruction}
      → Step rt clock w w' i
      → w.config.mint_paused ≡ true
      → w.config.redeem_paused ≡ true
      → (w'.config.total_synthetic ≡ w.config.total_synthetic)
        × (w'.config.total_collateral ≡ w.config.total_collateral)
  Step-paused w' (Step.administered change c k e) paused closed =
      let l = (administer-Kept rt w.tokens clock w.keepers w.config change c k).ledger in
      rw e (ground (arith, l))
  Step-paused w' (Step.keeper_registered ctx amount d e0 k e) paused closed =
      let l =
        keeper_register-ledger rt w.tokens clock (record ctx { config = w.config }) amount d k in
      rw e (ground (arith, l))
  Step-paused w' (Step.keeper_bonded ctx amount keeper d e0 k e) paused closed =
      let l =
        keeper_bond-ledger rt w.tokens clock
          (record ctx { config = w.config; keeper_account = keeper }) amount d k in
      rw e (ground (arith, l))
  Step-paused w' (Step.keeper_unbonded ctx amount keeper d e0 k e) paused closed =
      let l =
        (keeper_unbond-ledger rt w.tokens clock
          (record ctx { config = w.config; keeper_account = keeper }) amount d k).0 in
      rw e (ground (arith, l))
  Step-paused w' (Step.keeper_slashed ctx amount reason evidence keeper d e0 k e) paused closed =
      let l =
        (keeper_slash-ledger rt w.tokens clock
          (record ctx { config = w.config; keeper_account = keeper }) amount reason evidence d
          k).0 in
      rw e (ground (arith, l))
  Step-paused w' (Step.proof_committed ctx claim keeper d e0 e1 k e) paused closed =
      let l =
        (commit_rebalance_proof-ledger rt w.tokens clock
          (record ctx { config = w.config; keeper_account = keeper }) claim d k).0 in
      rw e (ground (arith, l))
  Step-paused w' (Step.mint_requested ctx nonce amount least d e0 k e) paused closed =
      let l =
        mint_request-ledger rt w.tokens clock (record ctx { config = w.config }) nonce amount least
          d k in
      rw e (ground (arith, l))
  Step-paused w' (Step.mint_confirmed ctx nonce hash venue_id filled keeper request d e0 e1 k e)
        paused closed =
      let unpaused =
        (mint_confirm-mint_to rt w.tokens clock
          (record ctx { config = w.config; keeper_account = keeper; request = request }) hash
          venue_id filled d k).2 in
      absurd (ground (arith, unpaused, paused))
  Step-paused w' (Step.mint_cancelled ctx nonce request d e0 k e) paused closed =
      let l =
        (mint_cancel-ledger rt w.tokens clock (record ctx { config = w.config; request = request })
          d k).0 in
      rw e (ground (arith, l))
  Step-paused w' (Step.redeem_requested ctx nonce amount least d e0 k e) paused closed =
      let l =
        (redeem_request-ledger rt w.tokens clock (record ctx { config = w.config }) nonce amount
          least d k).0 in
      rw e (ground (arith, l))
  Step-paused w' (Step.redeem_confirmed ctx nonce hash venue_id unwound keeper request d e0 e1 k e)
        paused closed =
      let unpaused =
        (redeem_confirm-ledger rt w.tokens clock
          (record ctx { config = w.config; keeper_account = keeper; request = request }) hash
          venue_id unwound d k).4 in
      absurd (ground (arith, unpaused, closed))
  Step-paused w' (Step.redeem_cancelled ctx nonce request d e0 k e) paused closed =
      let l =
        (redeem_cancel-ledger rt w.tokens clock
          (record ctx { config = w.config; request = request }) d k).0 in
      rw e (ground (arith, l))
  Step-paused w' (Step.funding_settled ctx amount d k e) paused closed =
      let l =
        settle_funding-ledger rt w.tokens clock (record ctx { config = w.config }) amount d k in
      rw e (ground (arith, l))
  Step-paused w' (Step.staked ctx amount d k e) paused closed =
      let l =
        stake-ledger rt w.tokens clock
          (record ctx {
            config = w.config;
            position = or_new (find (is_position ctx.owner) w.positions);
          })
          amount d k in
      rw e (ground (arith, l))
  Step-paused w' (Step.unstake_requested ctx amount position d e0 k e) paused closed =
      let l =
        (request_unstake-ledger rt w.tokens clock
          (record ctx { config = w.config; position = position }) amount d k).0 in
      rw e (ground (arith, l))
  Step-paused w' (Step.unstaked ctx position d e0 k e) paused closed =
      let l =
        (unstake_paid rt w.tokens clock (record ctx { config = w.config; position = position }) d
          k).4 in
      rw e (ground (arith, l))
  Step-paused w' (Step.funding_claimed ctx position d e0 k e) paused closed =
      let l =
        (claim_funding-ledger rt w.tokens clock
          (record ctx { config = w.config; position = position }) d k).0 in
      rw e (ground (arith, l))
  Step-paused w' (Step.buffer_deposited ctx amount d k e) paused closed =
      let l =
        buffer_deposit-ledger rt w.tokens clock (record ctx { config = w.config }) amount d k in
      rw e (ground (arith, l))
  Step-paused w' (Step.buffer_withdrawn ctx amount d k e) paused closed =
      let l =
        (buffer_withdraw-ledger rt w.tokens clock (record ctx { config = w.config }) amount d
          k).0 in
      rw e (ground (arith, l))

  -- While both sides are paused, no instruction that succeeds changes how much synthetic is issued or how
  -- much collateral is held against it: neither a confirmation nor any other.
  pub execute-paused :
      (instruction : Instruction) (w' : World T)
      → execute rt clock instruction w ≡ ok w'
      → w.config.mint_paused ≡ true
      → w.config.redeem_paused ≡ true
      → (w'.config.total_synthetic ≡ w.config.total_synthetic)
        × (w'.config.total_collateral ≡ w.config.total_collateral)
  execute-paused instruction w' done = Step-paused w' (execute-Step rt clock w w' instruction done)
