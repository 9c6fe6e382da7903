-- ===== src/Proof/Tests.antt =====
-- Runs of `commit_rebalance_proof` of programs/poyz/src/instructions/proof.rs on the accounts of
-- Examples/Setup, and the theorems of this component there.
use plott.Common.{
  ◌+◌, ◌-◌, ◌*◌, ◌/◌, ◌^◌, ◌≤◌, ◌<◌, ◌≡◌, refl, ◌≢◌, ◌⊎◌, ◌↔◌, true, false, [], ◌∷◌, ok, arith,
}
use plott.Common.Int.{ℤ, pos, negsuc, unsigned_abs, ◌+ℤ◌, ◌-ℤ◌, ◌≤ℤ◌, ◌<ℤ◌}
use plott.Common.Checked.{abs_diff}
use plott.Pyth.{OraclePrice}
use plott.Valuation.{config_price, config_notional}
use plott.Examples.{is_ok, value_of, ok-value_of}
use plott.Examples.Setup.{config, oracle, rt, clock, tokens, keeper}
use plott.Examples.Ledger.{Tokens}
use plott.Math.{delta_bps}
use plott.State.{Keeper, RebalanceProof, venue_enabled}
use plott.Runtime.{Done}
use plott.Events.Keepers.{RebalanceProofCommitted}
use plott.Proof.Deltas.{commit_rebalance_proof_hedged}
use plott.Proof.Chain.{preimage_of}
use plott.Proof.Tamper.{join, IsRanged, preimage-inj}
use plott.Proof.{CommitRebalanceProofCtx, Claim, commit_rebalance_proof}

abbrev proof_ctx : CommitRebalanceProofCtx
proof_ctx = record { keeper = 200; config = config; keeper_account = keeper; oracle = oracle }

-- The book is worth 1500.00, and 1499.00 is hedged.
abbrev proof_claim : Claim
proof_claim = record {
  sequence = 3;
  venues_hash = 88;
  venue_id = 1;
  delta_bps_before = pos 120;
  delta_bps_after = pos 6;
  hedged_notional = 1_499_000_000;
  collateral_notional = 1_500_500_000;
}

proof_runs : is_ok (commit_rebalance_proof rt tokens clock proof_ctx proof_claim) ≡ true
unfolding commit_rebalance_proof venue_enabled plott.Oracle.load_price plott.Oracle.read_update
    plott.Oracle.split_discriminator ◌-ℤ◌ plott.Math.confidence_bps
    plott.Math.collateral_to_notional plott.Math.decimal_shift ◌+ℤ◌ plott.Math.scale_down
    plott.Math.mul_bps_ceil delta_bps plott.Common.Int.scale_ℤ plott.Common.Int.tdiv
proof_runs = refl

abbrev proof_done : Done Tokens (RebalanceProof × Keeper) RebalanceProofCommitted
proof_done = value_of (commit_rebalance_proof rt tokens clock proof_ctx proof_claim) proof_runs

proof_ok : commit_rebalance_proof rt tokens clock proof_ctx proof_claim ≡ ok proof_done
proof_ok = ok-value_of (commit_rebalance_proof rt tokens clock proof_ctx proof_claim) proof_runs

proof_delta : proof_done.account.0.delta_bps_after ≡ pos 6
unfolding commit_rebalance_proof venue_enabled plott.Oracle.load_price plott.Oracle.read_update
    plott.Oracle.split_discriminator ◌-ℤ◌ plott.Math.confidence_bps
    plott.Math.collateral_to_notional plott.Math.decimal_shift ◌+ℤ◌ plott.Math.scale_down
    plott.Math.mul_bps_ceil delta_bps plott.Common.Int.scale_ℤ plott.Common.Int.tdiv
proof_delta = refl

-- A hedge outside the exit band, and a sequence number out of turn.
proof_outside :
    is_ok (
      commit_rebalance_proof rt tokens clock proof_ctx
        (record proof_claim { hedged_notional = 1_490_000_000 }))
    ≡ false
unfolding commit_rebalance_proof venue_enabled plott.Oracle.load_price plott.Oracle.read_update
    plott.Oracle.split_discriminator ◌-ℤ◌ plott.Math.confidence_bps
    plott.Math.collateral_to_notional plott.Math.decimal_shift ◌+ℤ◌ plott.Math.scale_down
    plott.Math.mul_bps_ceil delta_bps plott.Common.Int.scale_ℤ plott.Common.Int.tdiv
proof_outside = refl

proof_again :
    is_ok (commit_rebalance_proof rt tokens clock proof_ctx (record proof_claim { sequence = 2 }))
    ≡ false
unfolding commit_rebalance_proof venue_enabled
proof_again = refl

commit_rebalance_proof_hedged_example :
    (price : OraclePrice) × (config_price rt proof_ctx.config proof_ctx.oracle clock.unix_timestamp
      ≡ ok price)
    × (let book = proof_done.account.0.collateral_notional in
        (config_notional proof_ctx.config price proof_ctx.config.total_collateral ≡ ok book)
        × (0 < book)
        × (abs_diff book proof_claim.hedged_notional * 10_000
            < (proof_ctx.config.delta_exit_bps + 1) * book)
        × (delta_bps book proof_claim.hedged_notional ≡ ok proof_done.account.0.delta_bps_after)
        × (abs_diff proof_claim.collateral_notional book * 10_000
            < book * proof_ctx.config.max_hedge_slippage_bps + 10_000)
        × (unsigned_abs (proof_claim.delta_bps_after -ℤ proof_done.account.0.delta_bps_after)
            ≤ proof_ctx.config.delta_exit_bps))
commit_rebalance_proof_hedged_example =
    commit_rebalance_proof_hedged rt tokens clock proof_ctx proof_claim proof_done proof_ok

-- The account that the run writes, and one that differs in the timestamp only.
abbrev recorded : RebalanceProof
recorded = record {
  keeper = 200;
  venues_hash = 88;
  prev_hash = 50;
  this_hash = 77;
  sequence = 3;
  hedged_notional = 1_499_000_000;
  collateral_notional = 1_500_000_000;
  oracle_publish_time = pos 990;
  oracle_posted_slot = 79;
  slot = 80;
  timestamp = pos 1_000;
  oracle_price = pos 15_000_000_000;
  oracle_conf = 15_000_000;
  delta_bps_before = pos 120;
  delta_bps_after = pos 6;
  oracle_expo = negsuc 7;
  venue_id = 1;
}

abbrev redated : RebalanceProof
redated = record recorded { timestamp = pos 1_001 }

ranged : (t : ℤ) → IsRanged (record recorded { timestamp = t })
ranged t = record {
  keeper = omega arith;
  venues_hash = omega arith;
  prev_hash = omega arith;
  sequence = omega arith;
  slot = omega arith;
  oracle_conf = omega arith;
  collateral_notional = omega arith;
  hedged_notional = omega arith;
  oracle_price = (omega arith, omega arith);
  oracle_expo = (omega arith, omega arith);
  oracle_publish_time = (omega arith, omega arith);
  delta_bps_before = (omega arith, omega arith);
  delta_bps_after = (omega arith, omega arith);
}

key_ranged : 1 < 256 ^ 32
key_ranged = omega arith

same_bytes : join (preimage_of 1 recorded) ≡ join (preimage_of 1 redated)
same_bytes = refl

preimage-inj_example : recorded ≡ record redated {
  this_hash = recorded.this_hash;
  oracle_posted_slot = recorded.oracle_posted_slot;
  timestamp = recorded.timestamp;
}
preimage-inj_example =
    preimage-inj 1 recorded redated key_ranged (ranged (pos 1_000)) (ranged (pos 1_001)) same_bytes
