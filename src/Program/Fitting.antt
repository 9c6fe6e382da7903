-- ===== src/Program/Fitting.antt =====
-- That the counters of the config stay within their types (u32, u64 and u128 in programs/poyz/src/state.rs).
use plott.Common.{◌^◌, ◌<◌, arith}
use plott.State.{Config}
use plott.Runtime.{Runtime, Clock}
use plott.Admin.Validated.{initialize-ledger}
use plott.Keepers.Books.{
  keeper_register-ledger, keeper_bond-ledger, keeper_unbond-ledger, keeper_slash-ledger,
}
use plott.Proof.Books.{commit_rebalance_proof-ledger}
use plott.Mint.Books.{mint_request-ledger, mint_confirm-ledger, mint_cancel-ledger}
use plott.Redeem.Books.{redeem_request-ledger, redeem_confirm-ledger, redeem_cancel-ledger}
use plott.Funding.Books.{
  settle_funding-ledger, stake-ledger, request_unstake-ledger, claim_funding-ledger,
}
use plott.Funding.Stakes.{unstake_paid}
use plott.Buffer.Books.{buffer_deposit-ledger, buffer_withdraw-ledger}
use plott.Program.Store.{find}
use plott.Program.World.{World, is_position}
use plott.Program.Execute.{Instruction, or_new}
use plott.Program.Administer.Kept.{administer-Kept}
use plott.Program.Step.{Step}
use plott.Keepers.Books.{
  keeper_register-fits, keeper_bond-fits, keeper_unbond-fits, keeper_slash-fits,
}
use plott.Proof.Books.{commit_rebalance_proof-fits}
use plott.Mint.Books.{mint_request-fits, mint_confirm-fits}
use plott.Redeem.Books.{redeem_request-fits}
use plott.Funding.Books.{settle_funding-fits, stake-fits}
use plott.Buffer.Books.{buffer_deposit-fits, buffer_withdraw-fits}
use plott.Program.Step.Sound.{execute-Step}
use plott.Program.Reach.{Reachable, launched, stepped, elsewhere, launch_lem}

pub record IsFitting (c : Config) : Type 0 where
  pub collateral : c.total_collateral < 2 ^ 64
  pub pending : c.pending_collateral < 2 ^ 64
  pub issued : c.total_synthetic < 2 ^ 64
  pub in_flight : c.pending_redeem_synthetic < 2 ^ 64
  pub staked : c.total_staked < 2 ^ 64
  pub stakers : c.staker_funding_balance < 2 ^ 64
  pub buffer : c.buffer_balance < 2 ^ 64
  pub bonded : c.bonded_total < 2 ^ 64
  pub slashed : c.slashed_total < 2 ^ 64
  pub proofs : c.rebalance_count < 2 ^ 64
  pub keepers : c.keeper_count < 2 ^ 32
  pub acc : c.acc_funding_per_share < 2 ^ 128

module _ {T : Type 0} (rt : Runtime T) (clock : Clock) (w : World T) (b : IsFitting w.config) where
  Step-IsFitting : (w' : World T) {i : Instruction} → Step rt clock w w' i → IsFitting w'.config
  Step-IsFitting w' (Step.administered change c k e) =
      let l = (administer-Kept rt w.tokens clock w.keepers w.config change c k).ledger in
      rw e (ground (arith, l, b))
  Step-IsFitting w' (Step.keeper_registered ctx amount d e0 k e) =
      let l =
        keeper_register-ledger rt w.tokens clock (record ctx { config = w.config }) amount d k in
      let fits =
        keeper_register-fits rt w.tokens clock (record ctx { config = w.config }) amount d k
          b.keepers in
      rw e (ground (arith, l, fits, b))
  Step-IsFitting w' (Step.keeper_bonded ctx amount keeper d e0 k e) =
      let l =
        keeper_bond-ledger rt w.tokens clock
          (record ctx { config = w.config; keeper_account = keeper }) amount d k in
      let fits =
        keeper_bond-fits rt w.tokens clock
          (record ctx { config = w.config; keeper_account = keeper }) amount d k b.keepers in
      rw e (ground (arith, l, fits, b))
  Step-IsFitting w' (Step.keeper_unbonded ctx amount keeper d e0 k e) =
      let l =
        keeper_unbond-ledger rt w.tokens clock
          (record ctx { config = w.config; keeper_account = keeper }) amount d k in
      let fits =
        keeper_unbond-fits rt w.tokens clock
          (record ctx { config = w.config; keeper_account = keeper }) amount d k b.keepers in
      rw e (ground (arith, l, fits, b))
  Step-IsFitting w' (Step.keeper_slashed ctx amount reason evidence keeper d e0 k e) =
      let l =
        keeper_slash-ledger rt w.tokens clock
          (record ctx { config = w.config; keeper_account = keeper }) amount reason evidence d k in
      let fits =
        keeper_slash-fits rt w.tokens clock
          (record ctx { config = w.config; keeper_account = keeper }) amount reason evidence d k
          b.keepers in
      rw e (ground (arith, l, fits, b))
  Step-IsFitting w' (Step.proof_committed ctx claim keeper d e0 e1 k e) =
      let l =
        commit_rebalance_proof-ledger rt w.tokens clock
          (record ctx { config = w.config; keeper_account = keeper }) claim d k in
      let fits =
        commit_rebalance_proof-fits rt w.tokens clock
          (record ctx { config = w.config; keeper_account = keeper }) claim d k in
      rw e (ground (arith, l, fits, b))
  Step-IsFitting w' (Step.mint_requested ctx nonce amount least d e0 k e) =
      let l =
        mint_request-ledger rt w.tokens clock (record ctx { config = w.config }) nonce amount least
          d k in
      let fits =
        mint_request-fits rt w.tokens clock (record ctx { config = w.config }) nonce amount least d
          k in
      rw e (ground (arith, l, fits, b))
  Step-IsFitting w'
        (Step.mint_confirmed ctx nonce hash venue_id filled keeper request d e0 e1 k e) =
      let l =
        mint_confirm-ledger rt w.tokens clock
          (record ctx { config = w.config; keeper_account = keeper; request = request }) hash
          venue_id filled d k in
      let fits =
        mint_confirm-fits rt w.tokens clock
          (record ctx { config = w.config; keeper_account = keeper; request = request }) hash
          venue_id filled d k in
      rw e (ground (arith, l, fits, b))
  Step-IsFitting w' (Step.mint_cancelled ctx nonce request d e0 k e) =
      let l =
        mint_cancel-ledger rt w.tokens clock (record ctx { config = w.config; request = request }) d
          k in
      rw e (ground (arith, l, b))
  Step-IsFitting w' (Step.redeem_requested ctx nonce amount least d e0 k e) =
      let l =
        redeem_request-ledger rt w.tokens clock (record ctx { config = w.config }) nonce amount
          least d k in
      let fits =
        redeem_request-fits rt w.tokens clock (record ctx { config = w.config }) nonce amount least
          d k in
      rw e (ground (arith, l, fits, b))
  Step-IsFitting w'
        (Step.redeem_confirmed ctx nonce hash venue_id unwound keeper request d e0 e1 k e) =
      let l =
        redeem_confirm-ledger rt w.tokens clock
          (record ctx { config = w.config; keeper_account = keeper; request = request }) hash
          venue_id unwound d k in
      rw e (ground (arith, l, b))
  Step-IsFitting w' (Step.redeem_cancelled ctx nonce request d e0 k e) =
      let l =
        redeem_cancel-ledger rt w.tokens clock (record ctx { config = w.config; request = request })
          d k in
      rw e (ground (arith, l, b))
  Step-IsFitting w' (Step.funding_settled ctx amount d k e) =
      let l =
        settle_funding-ledger rt w.tokens clock (record ctx { config = w.config }) amount d k in
      let fits =
        settle_funding-fits rt w.tokens clock (record ctx { config = w.config }) amount d k
          b.stakers b.buffer b.acc in
      rw e (ground (arith, l, fits, b))
  Step-IsFitting w' (Step.staked ctx amount d k e) =
      let l =
        stake-ledger rt w.tokens clock
          (record ctx {
            config = w.config;
            position = or_new (find (is_position ctx.owner) w.positions);
          })
          amount d k in
      let fits =
        stake-fits rt w.tokens clock
          (record ctx {
            config = w.config;
            position = or_new (find (is_position ctx.owner) w.positions);
          })
          amount d k in
      rw e (ground (arith, l, fits, b))
  Step-IsFitting w' (Step.unstake_requested ctx amount position d e0 k e) =
      let l =
        request_unstake-ledger rt w.tokens clock
          (record ctx { config = w.config; position = position }) amount d k in
      rw e (ground (arith, l, b))
  Step-IsFitting w' (Step.unstaked ctx position d e0 k e) =
      let l =
        (unstake_paid rt w.tokens clock (record ctx { config = w.config; position = position }) d
          k).4 in
      rw e (ground (arith, l, b))
  Step-IsFitting w' (Step.funding_claimed ctx position d e0 k e) =
      let l =
        claim_funding-ledger rt w.tokens clock
          (record ctx { config = w.config; position = position }) d k in
      rw e (ground (arith, l, b))
  Step-IsFitting w' (Step.buffer_deposited ctx amount d k e) =
      let l =
        buffer_deposit-ledger rt w.tokens clock (record ctx { config = w.config }) amount d k in
      let fits =
        buffer_deposit-fits rt w.tokens clock (record ctx { config = w.config }) amount d k in
      rw e (ground (arith, l, fits, b))
  Step-IsFitting w' (Step.buffer_withdrawn ctx amount d k e) =
      let l =
        buffer_withdraw-ledger rt w.tokens clock (record ctx { config = w.config }) amount d k in
      let fits =
        buffer_withdraw-fits rt w.tokens clock (record ctx { config = w.config }) amount d k in
      rw e (ground (arith, l, fits, b))

-- In every world that the program can reach, no counter of the config has left the range of its type: the
-- totals of collateral, synthetic, stakes, bonds, slashes and balances and the number of proofs are
-- below 2^64, the number of keepers below 2^32 and the funding accumulator below 2^128.
pub Reachable-IsFitting :
    {T : Type 0} (rt : Runtime T) (w : World T) → Reachable rt w → IsFitting w.config
Reachable-IsFitting rt w (launched clock ctx params tokens h) =
    let (d, k, e) = launch_lem rt clock ctx params tokens w h in
    let l = initialize-ledger rt tokens clock ctx params d k in rw e (ground (arith, l))
Reachable-IsFitting rt w (stepped {v} clock instruction before done) =
    Step-IsFitting rt clock v (Reachable-IsFitting rt v before) w
      (execute-Step rt clock v w instruction done)
Reachable-IsFitting rt w (elsewhere {w = v} tokens before kept) = Reachable-IsFitting rt v before
