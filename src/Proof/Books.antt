-- ===== src/Proof/Books.antt =====
-- What `commit_rebalance_proof` of programs/poyz/src/instructions/proof.rs writes into the books, in full.
use plott.Common.{suc, ◌<◌, ◌≡◌, ok, arith, ◌^◌}
use plott.State.{Keeper, RebalanceProof}
use plott.State.Ledger.{ledger_of}
use plott.State.Settings.{settings_of}
use plott.Runtime.{Runtime, Clock, Done}
use plott.Events.Keepers.{RebalanceProofCommitted}
use plott.Proof.{CommitRebalanceProofCtx, Claim, commit_rebalance_proof}

module _ {T : Type 0} (rt : Runtime T) (tokens : T) (clock : Clock) (ctx : CommitRebalanceProofCtx)
    (claim : Claim) (d : Done T (RebalanceProof × Keeper) RebalanceProofCommitted)
    (done : commit_rebalance_proof rt tokens clock ctx claim ≡ ok d) where
  pub commit_rebalance_proof-settings : settings_of d.config ≡ settings_of ctx.config
  unfolding commit_rebalance_proof
  commit_rebalance_proof-settings = ground arith

  pub commit_rebalance_proof-ledger :
      (ledger_of d.config ≡ record (ledger_of ctx.config) {
        rebalance_count = suc ctx.config.rebalance_count;
        last_proof_slot = d.account.0.slot;
        last_proof_hash = d.account.0.this_hash;
        hedged_notional = claim.hedged_notional;
      })
      × (d.account.0.prev_hash ≡ ctx.config.last_proof_hash)
      × (d.account.0.sequence ≡ ctx.config.rebalance_count)
      × (ctx.config.last_proof_slot < d.account.0.slot)
      × (d.tokens ≡ tokens)
  unfolding commit_rebalance_proof
  commit_rebalance_proof-ledger = ground arith

  pub commit_rebalance_proof-account :
      (d.account.1.keeper ≡ ctx.keeper_account.keeper)
      × (d.account.1.bonded ≡ ctx.keeper_account.bonded)
      × (d.account.1.slashed ≡ ctx.keeper_account.slashed)
      × (d.account.1.active ≡ ctx.keeper_account.active)
  unfolding commit_rebalance_proof
  commit_rebalance_proof-account = ground arith

pub commit_rebalance_proof-fits :
    {T : Type 0} (rt : Runtime T) (tokens : T) (clock : Clock) (ctx : CommitRebalanceProofCtx)
    (claim : Claim) (d : Done T (RebalanceProof × Keeper) RebalanceProofCommitted)
    → commit_rebalance_proof rt tokens clock ctx claim ≡ ok d
    → d.config.rebalance_count < 2 ^ 64
unfolding commit_rebalance_proof
commit_rebalance_proof-fits rt tokens clock ctx claim d done = ground arith
