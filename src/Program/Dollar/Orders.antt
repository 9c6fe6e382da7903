-- ===== src/Program/Dollar/Orders.antt =====
-- What order each instruction of programs/poyz/src/lib.rs is, if it is one.
use plott.Common.{◌≡◌, ◌-◌, some, none, Option, arith}
use plott.Runtime.{Runtime, Clock}
use plott.Keepers.Books.{
  keeper_register-ledger, keeper_bond-ledger, keeper_unbond-ledger, keeper_slash-ledger,
}
use plott.Proof.Books.{commit_rebalance_proof-ledger}
use plott.Mint.Books.{mint_request-ledger, mint_confirm-ledger, mint_cancel-ledger}
use plott.Redeem.Books.{redeem_request-ledger, redeem_confirm-ledger, redeem_cancel-ledger}
use plott.Funding.Books.{
  settle_funding-ledger, stake-ledger, request_unstake-ledger, claim_funding-ledger,
}
use plott.Funding.Stakes.{unstake_paid}
use plott.Buffer.Books.{buffer_deposit-ledger, buffer_withdraw-ledger}
use plott.Program.Store.{find}
use plott.State.{MintRequest, RedeemRequest}
use plott.Program.World.{World, is_position, is_mint_request, is_redeem_request}
use plott.Program.Execute.{Instruction, or_new}
use plott.Program.Administer.Kept.{administer-Kept}
use plott.Program.Step.{Step}
use plott.Program.Dollar.{
  Order, lodge, refund, ask, withdraw, issue, pay, accept, follow, dollar_of,
}

abbrev about : {A : Type 0} → (A → Order) → Option A → Option Order
about f none = none
about f (some a) = some (f a)

-- The order that an instruction is when it takes a world to the next. The amounts of a request are what the
-- caller asks or what the request's account holds; what is issued and what is paid is the change of
-- the program's count.
abbrev pub order_of : {T : Type 0} → Instruction → World T → World T → Option Order
order_of (Instruction.mint_request ctx nonce amount least) w w' = some (lodge amount)
order_of (Instruction.mint_confirm ctx nonce hash venue_id filled) w w' =
    about
      (λ (r : MintRequest).
        issue r.collateral_amount (w'.config.total_synthetic - w.config.total_synthetic))
      (find (is_mint_request ctx.user nonce) w.mint_requests)
order_of (Instruction.mint_cancel ctx nonce) w w' =
    about (λ (r : MintRequest). refund r.collateral_amount)
      (find (is_mint_request ctx.user nonce) w.mint_requests)
order_of (Instruction.redeem_request ctx nonce amount least) w w' = some (ask amount)
order_of (Instruction.redeem_confirm ctx nonce hash venue_id unwound) w w' =
    about
      (λ (r : RedeemRequest).
        pay r.synthetic_amount (w.config.total_collateral - w'.config.total_collateral))
      (find (is_redeem_request ctx.user nonce) w.redeem_requests)
order_of (Instruction.redeem_cancel ctx nonce) w w' =
    about (λ (r : RedeemRequest). withdraw r.synthetic_amount)
      (find (is_redeem_request ctx.user nonce) w.redeem_requests)
order_of _ w w' = none

module _ {T : Type 0} (rt : Runtime T) (clock : Clock) (w : World T) where
  pub Step-follow :
      (w' : World T) {i : Instruction}
      → Step rt clock w w' i
      → follow (order_of i w w') (dollar_of w.config) ≡ some (dollar_of w'.config)
  unfolding accept
  Step-follow w' (Step.administered change c k e) =
      let l = (administer-Kept rt w.tokens clock w.keepers w.config change c k).ledger in
      rw e (ground (arith, l))
  Step-follow w' (Step.keeper_registered ctx amount d e0 k e) =
      let l =
        keeper_register-ledger rt w.tokens clock (record ctx { config = w.config }) amount d k in
      rw e (ground (arith, l))
  Step-follow w' (Step.keeper_bonded ctx amount keeper d e0 k e) =
      let l =
        keeper_bond-ledger rt w.tokens clock
          (record ctx { config = w.config; keeper_account = keeper }) amount d k in
      rw e (ground (arith, l))
  Step-follow w' (Step.keeper_unbonded ctx amount keeper d e0 k e) =
      let l =
        (keeper_unbond-ledger rt w.tokens clock
          (record ctx { config = w.config; keeper_account = keeper }) amount d k).0 in
      rw e (ground (arith, l))
  Step-follow w' (Step.keeper_slashed ctx amount reason evidence keeper d e0 k e) =
      let l =
        (keeper_slash-ledger rt w.tokens clock
          (record ctx { config = w.config; keeper_account = keeper }) amount reason evidence d
          k).0 in
      rw e (ground (arith, l))
  Step-follow w' (Step.proof_committed ctx claim keeper d e0 e1 k e) =
      let l =
        (commit_rebalance_proof-ledger rt w.tokens clock
          (record ctx { config = w.config; keeper_account = keeper }) claim d k).0 in
      rw e (ground (arith, l))
  Step-follow w' (Step.mint_requested ctx nonce amount least d e0 k e) =
      let l =
        mint_request-ledger rt w.tokens clock (record ctx { config = w.config }) nonce amount least
          d k in
      rw e (ground (arith, l))
  Step-follow w' (Step.mint_confirmed ctx nonce hash venue_id filled keeper request d e0 e1 k e) =
      let l =
        mint_confirm-ledger rt w.tokens clock
          (record ctx { config = w.config; keeper_account = keeper; request = request }) hash
          venue_id filled d k in
      rw (e, e1) (ground (arith, l))
  Step-follow w' (Step.mint_cancelled ctx nonce request d e0 k e) =
      let l =
        mint_cancel-ledger rt w.tokens clock (record ctx { config = w.config; request = request }) d
          k in
      rw (e, e0) (ground (arith, l))
  Step-follow w' (Step.redeem_requested ctx nonce amount least d e0 k e) =
      let l =
        redeem_request-ledger rt w.tokens clock (record ctx { config = w.config }) nonce amount
          least d k in
      rw e (ground (arith, l))
  Step-follow w'
        (Step.redeem_confirmed ctx nonce hash venue_id unwound keeper request d e0 e1 k e) =
      let l =
        redeem_confirm-ledger rt w.tokens clock
          (record ctx { config = w.config; keeper_account = keeper; request = request }) hash
          venue_id unwound d k in
      rw (e, e1) (ground (arith, l))
  Step-follow w' (Step.redeem_cancelled ctx nonce request d e0 k e) =
      let l =
        redeem_cancel-ledger rt w.tokens clock (record ctx { config = w.config; request = request })
          d k in
      rw (e, e0) (ground (arith, l))
  Step-follow w' (Step.funding_settled ctx amount d k e) =
      let l =
        settle_funding-ledger rt w.tokens clock (record ctx { config = w.config }) amount d k in
      rw e (ground (arith, l))
  Step-follow w' (Step.staked ctx amount d k e) =
      let l =
        stake-ledger rt w.tokens clock
          (record ctx {
            config = w.config;
            position = or_new (find (is_position ctx.owner) w.positions);
          })
          amount d k in
      rw e (ground (arith, l))
  Step-follow w' (Step.unstake_requested ctx amount position d e0 k e) =
      let l =
        (request_unstake-ledger rt w.tokens clock
          (record ctx { config = w.config; position = position }) amount d k).0 in
      rw e (ground (arith, l))
  Step-follow w' (Step.unstaked ctx position d e0 k e) =
      let l =
        (unstake_paid rt w.tokens clock (record ctx { config = w.config; position = position }) d
          k).4 in
      rw e (ground (arith, l))
  Step-follow w' (Step.funding_claimed ctx position d e0 k e) =
      let l =
        (claim_funding-ledger rt w.tokens clock
          (record ctx { config = w.config; position = position }) d k).0 in
      rw e (ground (arith, l))
  Step-follow w' (Step.buffer_deposited ctx amount d k e) =
      let l =
        buffer_deposit-ledger rt w.tokens clock (record ctx { config = w.config }) amount d k in
      rw e (ground (arith, l))
  Step-follow w' (Step.buffer_withdrawn ctx amount d k e) =
      let l =
        (buffer_withdraw-ledger rt w.tokens clock (record ctx { config = w.config }) amount d
          k).0 in
      rw e (ground (arith, l))
