-- ===== src/Proof/Chain.antt =====
-- The chain that the proofs of programs/poyz/src/instructions/proof.rs form.
use plott.Common.{ℕ, suc, ◌≤◌, ◌<◌, ◌≡◌, ◌≢◌, true, ok, arith, List, ap, ◌∙◌}
use plott.State.{Keeper, RebalanceProof, venue_enabled}
use plott.State.Keys.{zero_hash}
use plott.Pyth.{OraclePrice}
use plott.Valuation.{config_price}
use plott.Runtime.{Runtime, Clock, Done}
use plott.Events.Keepers.{RebalanceProofCommitted}
use plott.State.Keys.{Pubkey}
use plott.Proof.Preimage.{preimage}
use plott.Proof.Deltas.{proof_price}
use plott.Proof.{CommitRebalanceProofCtx, Claim, commit_accounts, commit_rebalance_proof}

-- The oracle's data that a proof records.
abbrev pub oracle_of : RebalanceProof → OraclePrice
oracle_of p = record {
  price = p.oracle_price;
  expo = p.oracle_expo;
  conf = p.oracle_conf;
  publish_time = p.oracle_publish_time;
  posted_slot = p.oracle_posted_slot;
}

-- The digest's input, from a recorded proof alone.
abbrev pub preimage_of : Pubkey → RebalanceProof → List (List ℕ)
preimage_of config p =
    preimage p.prev_hash config p.sequence p.slot (oracle_of p) p.collateral_notional
      p.hedged_notional p.delta_bps_before p.delta_bps_after p.venue_id p.venues_hash p.keeper

module _ {T : Type 0} (rt : Runtime T) (tokens : T) (clock : Clock) (ctx : CommitRebalanceProofCtx)
    (claim : Claim) (d : Done T (RebalanceProof × Keeper) RebalanceProofCommitted)
    (done : commit_rebalance_proof rt tokens clock ctx claim ≡ ok d) where
  -- A proof is the next in sequence, in a later slot than the one before, by the keeper whose account
  -- it is, active and bonded, on an enabled venue. It links to the hash of the one before and becomes
  -- the head; of the config only the head, the count, the slot and the hedge change.
  pub commit_rebalance_proof-linked :
      (claim.sequence ≡ ctx.config.rebalance_count)
      × (d.account.0.sequence ≡ ctx.config.rebalance_count)
      × (d.config.rebalance_count ≡ suc ctx.config.rebalance_count)
      × (ctx.config.last_proof_slot < clock.slot)
      × (d.account.0.prev_hash ≡ ctx.config.last_proof_hash)
      × (ctx.keeper_account.active ≡ true)
      × (ctx.config.min_keeper_bond ≤ ctx.keeper_account.bonded)
      × (ctx.keeper_account.keeper ≡ d.account.0.keeper)
      × (claim.venues_hash ≢ zero_hash)
      × (venue_enabled ctx.config claim.venue_id ≡ true)
      × (d.config ≡ record ctx.config {
        rebalance_count = d.config.rebalance_count;
        last_proof_slot = clock.slot;
        last_proof_hash = d.account.0.this_hash;
        hedged_notional = claim.hedged_notional;
      })
  unfolding commit_rebalance_proof commit_accounts
  commit_rebalance_proof-linked = ground arith

  -- The keeper's account counts the proof and dates its unbonding cooldown from now.
  pub commit_rebalance_proof-keeper : d.account.1 ≡ record ctx.keeper_account {
    proofs_committed = suc ctx.keeper_account.proofs_committed;
    last_proof_at = clock.unix_timestamp;
    last_proof_slot = clock.slot;
  }
  unfolding commit_rebalance_proof
  commit_rebalance_proof-keeper = ground arith

  proof_hash :
      (price : OraclePrice)
      → config_price rt ctx.config ctx.oracle clock.unix_timestamp ≡ ok price
      → let p = d.account.0 in
        (p.this_hash
          ≡ rt.hashv (
              preimage p.prev_hash rt.config_key p.sequence p.slot price p.collateral_notional
                p.hedged_notional p.delta_bps_before p.delta_bps_after p.venue_id p.venues_hash
                p.keeper))
        × (price ≡ oracle_of p)
  unfolding commit_rebalance_proof
  proof_hash price e = ground arith

  -- The hash of an accepted proof is the digest of what the proof account itself records, so that anyone
  -- who reads the account can check it.
  pub commit_rebalance_proof-recomputed :
      d.account.0.this_hash ≡ rt.hashv (preimage_of rt.config_key d.account.0)
  commit_rebalance_proof-recomputed =
      let (price, priced) = proof_price rt tokens clock ctx claim d done in
      let (hashed, recorded) = proof_hash price priced in
      let p = d.account.0 in
      hashed
      ∙ ap
          (λ (x : OraclePrice). rt.hashv (
            preimage p.prev_hash rt.config_key p.sequence p.slot x p.collateral_notional
              p.hedged_notional p.delta_bps_before p.delta_bps_after p.venue_id p.venues_hash
              p.keeper))
          recorded
