-- ===== src/Program/Heads.antt =====
-- Which steps move the issue and the collateral behind it, and the head of the proof chain.
use plott.Common.{ℕ, suc, ◌<◌, ◌≡◌, ◌⊎◌, inl, inr, refl, arith, ◌∷◌}
use plott.State.{Config, RebalanceProof}
use plott.State.Keys.{Hash}
use plott.Runtime.{Runtime, Clock}
use plott.Proof.Chain.{preimage_of, commit_rebalance_proof-recomputed}
use plott.Keepers.Books.{
  keeper_register-ledger, keeper_bond-ledger, keeper_unbond-ledger, keeper_slash-ledger,
}
use plott.Proof.Books.{commit_rebalance_proof-ledger}
use plott.Mint.Books.{mint_request-ledger, mint_confirm-ledger, mint_cancel-ledger}
use plott.Redeem.Books.{redeem_request-ledger, redeem_confirm-ledger, redeem_cancel-ledger}
use plott.Funding.Books.{
  settle_funding-ledger, stake-ledger, request_unstake-ledger, claim_funding-ledger,
}
use plott.Funding.Stakes.{unstake_paid}
use plott.Buffer.Books.{buffer_deposit-ledger, buffer_withdraw-ledger}
use plott.Program.Store.{find}
use plott.Program.World.{World, is_position}
use plott.Program.Execute.{Instruction, or_new}
use plott.Program.Administer.Kept.{administer-Kept}
use plott.Program.Step.{Step}

-- The head of the proof chain: its hash, its slot, and the number of proofs.
pub record Head : Type 0 where
  pub hash : Hash
  pub slot : ℕ
  pub count : ℕ

abbrev pub head_of : Config → Head
head_of c = record { hash = c.last_proof_hash; slot = c.last_proof_slot; count = c.rebalance_count }

-- A proof that is put on the chain.
pub record Linked {T : Type 0} (rt : Runtime T) (head : Head) (p : RebalanceProof) (head' : Head)
    : Type 0 where
  pub next : head' ≡ record { hash = p.this_hash; slot = p.slot; count = suc p.sequence }
  pub previous : p.prev_hash ≡ head.hash
  pub sequence : p.sequence ≡ head.count
  pub later : head.slot < p.slot
  pub digest : p.this_hash ≡ rt.hashv (preimage_of rt.config_key p)

module _ {T : Type 0} (rt : Runtime T) (clock : Clock) (w : World T) where
  -- A step leaves the chain as it is, or puts one proof on it.
  pub Step-head :
      (w' : World T) {i : Instruction}
      → Step rt clock w w' i
      → ((head_of w'.config ≡ head_of w.config) × (w'.proofs ≡ w.proofs))
        ⊎ ((p : RebalanceProof) × (w'.proofs ≡ p ∷ w.proofs)
            × Linked rt (head_of w.config) p (head_of w'.config))
  Step-head w' (Step.administered change c k e) =
      let l = (administer-Kept rt w.tokens clock w.keepers w.config change c k).ledger in
      rw e (inl (ground (arith, l), refl))
  Step-head w' (Step.keeper_registered ctx amount d e0 k e) =
      let l =
        keeper_register-ledger rt w.tokens clock (record ctx { config = w.config }) amount d k in
      rw e (inl (ground (arith, l), refl))
  Step-head w' (Step.keeper_bonded ctx amount keeper d e0 k e) =
      let l =
        keeper_bond-ledger rt w.tokens clock
          (record ctx { config = w.config; keeper_account = keeper }) amount d k in
      rw e (inl (ground (arith, l), refl))
  Step-head w' (Step.keeper_unbonded ctx amount keeper d e0 k e) =
      let l =
        (keeper_unbond-ledger rt w.tokens clock
          (record ctx { config = w.config; keeper_account = keeper }) amount d k).0 in
      rw e (inl (ground (arith, l), refl))
  Step-head w' (Step.keeper_slashed ctx amount reason evidence keeper d e0 k e) =
      let l =
        (keeper_slash-ledger rt w.tokens clock
          (record ctx { config = w.config; keeper_account = keeper }) amount reason evidence d
          k).0 in
      rw e (inl (ground (arith, l), refl))
  Step-head w' (Step.proof_committed ctx claim keeper d e0 e1 k e) =
      let l =
        commit_rebalance_proof-ledger rt w.tokens clock
          (record ctx { config = w.config; keeper_account = keeper }) claim d k in
      rw e (
        inr (
          d.account.0,
          refl,
          record {
            next = ground (arith, l.0, l.2);
            previous = l.1;
            sequence = l.2;
            later = l.3;
            digest =
                commit_rebalance_proof-recomputed rt w.tokens clock
                  (record ctx { config = w.config; keeper_account = keeper }) claim d k;
          },
        ))
  Step-head w' (Step.mint_requested ctx nonce amount least d e0 k e) =
      let l =
        mint_request-ledger rt w.tokens clock (record ctx { config = w.config }) nonce amount least
          d k in
      rw e (inl (ground (arith, l), refl))
  Step-head w' (Step.mint_confirmed ctx nonce hash venue_id filled keeper request d e0 e1 k e) =
      let l =
        (mint_confirm-ledger rt w.tokens clock
          (record ctx { config = w.config; keeper_account = keeper; request = request }) hash
          venue_id filled d k).0 in
      rw e (inl (ground (arith, l), refl))
  Step-head w' (Step.mint_cancelled ctx nonce request d e0 k e) =
      let l =
        (mint_cancel-ledger rt w.tokens clock (record ctx { config = w.config; request = request })
          d k).0 in
      rw e (inl (ground (arith, l), refl))
  Step-head w' (Step.redeem_requested ctx nonce amount least d e0 k e) =
      let l =
        (redeem_request-ledger rt w.tokens clock (record ctx { config = w.config }) nonce amount
          least d k).0 in
      rw e (inl (ground (arith, l), refl))
  Step-head w' (Step.redeem_confirmed ctx nonce hash venue_id unwound keeper request d e0 e1 k e) =
      let l =
        (redeem_confirm-ledger rt w.tokens clock
          (record ctx { config = w.config; keeper_account = keeper; request = request }) hash
          venue_id unwound d k).0 in
      rw e (inl (ground (arith, l), refl))
  Step-head w' (Step.redeem_cancelled ctx nonce request d e0 k e) =
      let l =
        (redeem_cancel-ledger rt w.tokens clock
          (record ctx { config = w.config; request = request }) d k).0 in
      rw e (inl (ground (arith, l), refl))
  Step-head w' (Step.funding_settled ctx amount d k e) =
      let l =
        settle_funding-ledger rt w.tokens clock (record ctx { config = w.config }) amount d k in
      rw e (inl (ground (arith, l), refl))
  Step-head w' (Step.staked ctx amount d k e) =
      let l =
        stake-ledger rt w.tokens clock
          (record ctx {
            config = w.config;
            position = or_new (find (is_position ctx.owner) w.positions);
          })
          amount d k in
      rw e (inl (ground (arith, l), refl))
  Step-head w' (Step.unstake_requested ctx amount position d e0 k e) =
      let l =
        (request_unstake-ledger rt w.tokens clock
          (record ctx { config = w.config; position = position }) amount d k).0 in
      rw e (inl (ground (arith, l), refl))
  Step-head w' (Step.unstaked ctx position d e0 k e) =
      let l =
        (unstake_paid rt w.tokens clock (record ctx { config = w.config; position = position }) d
          k).4 in
      rw e (inl (ground (arith, l), refl))
  Step-head w' (Step.funding_claimed ctx position d e0 k e) =
      let l =
        (claim_funding-ledger rt w.tokens clock
          (record ctx { config = w.config; position = position }) d k).0 in
      rw e (inl (ground (arith, l), refl))
  Step-head w' (Step.buffer_deposited ctx amount d k e) =
      let l =
        buffer_deposit-ledger rt w.tokens clock (record ctx { config = w.config }) amount d k in
      rw e (inl (ground (arith, l), refl))
  Step-head w' (Step.buffer_withdrawn ctx amount d k e) =
      let l =
        (buffer_withdraw-ledger rt w.tokens clock (record ctx { config = w.config }) amount d
          k).0 in
      rw e (inl (ground (arith, l), refl))
