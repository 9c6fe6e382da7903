-- ===== src/Proof.antt =====
-- The execution proof of a rebalance (programs/poyz/src/instructions/proof.rs). The digest is taken over
-- the concatenation of the fields' bytes; SHA-256 itself is a parameter.
pub mod Preimage
pub mod Deltas
pub mod Chain
pub mod Tamper
pub mod Books
mod Tests
use plott.Common.{
  ℕ, ◌+◌, ◌-◌, false, not, ◌&&◌, ◌==◌, ltb, leb, if◌then◌else◌, Result, ok, ◌>>=◌, ◌>>◌, require,
  panic, constraint, oracle_account_mismatch, unauthorized, keeper_inactive, insufficient_bond,
  empty_proof_hash, venue_not_enabled, proof_sequence_mismatch, zero_amount, delta_out_of_range,
  proof_slot_not_monotonic, proof_collateral_mismatch, delta_threshold_exceeded,
  proof_delta_mismatch,
}
use plott.Common.Int.{ℤ, unsigned_abs}
use plott.Common.Checked.{checked_add, checked_sub_ℤ, abs_diff}
use plott.Math.{delta_bps, mul_bps_ceil}
use plott.Valuation.{config_price, config_notional}
use plott.State.{Config, Keeper, RebalanceProof, venue_enabled}
use plott.State.Keys.{Pubkey, Hash, zero_hash}
use plott.Pyth.{AccountInfo}
use plott.Runtime.{Runtime, Clock, Done}
use plott.Events.Keepers.{RebalanceProofCommitted}
use Preimage.{preimage}

abbrev pub delta_bps_limit : ℕ
delta_bps_limit = 1_000_000

pub record CommitRebalanceProofCtx : Type 0 where
  pub keeper : Pubkey
  pub config : Config
  pub keeper_account : Keeper
  pub oracle : AccountInfo

-- The arguments of the instruction.
pub record Claim : Type 0 where
  pub sequence : ℕ
  pub venues_hash : Hash
  pub venue_id : ℕ
  pub delta_bps_before : ℤ
  pub delta_bps_after : ℤ
  pub hedged_notional : ℕ
  pub collateral_notional : ℕ

commit_accounts : CommitRebalanceProofCtx → Result (Unit {0})
commit_accounts ctx = do
  require (ctx.config.oracle == ctx.oracle.key) oracle_account_mismatch
  require (ctx.keeper_account.keeper == ctx.keeper) unauthorized

-- `i32::abs`, which panics at `i32::MIN`.
abbrev pub abs_i32 : ℤ → Result ℕ
abs_i32 x = constraint (ltb (unsigned_abs x) 2_147_483_648) panic >> ok (unsigned_abs x)

-- `a.abs() <= LIMIT && b.abs() <= LIMIT`
check_deltas : ℤ → ℤ → Result (Unit {0})
check_deltas before after = do
  b ← abs_i32 before
  if leb b delta_bps_limit
      then (do a ← abs_i32 after; require (leb a delta_bps_limit) delta_out_of_range)
      else require false delta_out_of_range

module _ {T : Type 0} (rt : Runtime T) (tokens : T) (clock : Clock) where
  unfoldable pub commit_rebalance_proof :
      CommitRebalanceProofCtx
      → Claim
      → Result (Done T (RebalanceProof × Keeper) RebalanceProofCommitted)
  unfolding commit_accounts check_deltas
  commit_rebalance_proof ctx claim = do
    commit_accounts ctx
    let config = ctx.config
    require ctx.keeper_account.active keeper_inactive
    require (leb config.min_keeper_bond ctx.keeper_account.bonded) insufficient_bond
    require (not (claim.venues_hash == zero_hash)) empty_proof_hash
    require (venue_enabled config claim.venue_id) venue_not_enabled
    require (claim.sequence == config.rebalance_count) proof_sequence_mismatch
    require (ltb 0 claim.collateral_notional) zero_amount
    check_deltas claim.delta_bps_before claim.delta_bps_after
    require (ltb config.last_proof_slot clock.slot) proof_slot_not_monotonic
    price ← config_price rt config ctx.oracle clock.unix_timestamp
    book_notional ← config_notional config price config.total_collateral
    require (ltb 0 book_notional) zero_amount
    tolerance ← mul_bps_ceil book_notional config.max_hedge_slippage_bps
    require (leb (abs_diff claim.collateral_notional book_notional) tolerance)
        proof_collateral_mismatch
    delta_after_onchain ← delta_bps book_notional claim.hedged_notional
    require (leb (unsigned_abs delta_after_onchain) config.delta_exit_bps) delta_threshold_exceeded
    gap ← checked_sub_ℤ 63 claim.delta_bps_after delta_after_onchain
    require (leb (unsigned_abs gap) config.delta_exit_bps) proof_delta_mismatch
    let prev_hash = config.last_proof_hash
    let this_hash = rt.hashv (
        preimage prev_hash rt.config_key claim.sequence clock.slot price book_notional
          claim.hedged_notional claim.delta_bps_before delta_after_onchain claim.venue_id
          claim.venues_hash ctx.keeper)
    committed ← checked_add 64 ctx.keeper_account.proofs_committed 1
    count ← checked_add 64 config.rebalance_count 1
    ok (record {
      config = record config {
        rebalance_count = count;
        last_proof_slot = clock.slot;
        last_proof_hash = this_hash;
        hedged_notional = claim.hedged_notional;
      };
      account = (
        record {
          keeper = ctx.keeper;
          venues_hash = claim.venues_hash;
          prev_hash = prev_hash;
          this_hash = this_hash;
          sequence = claim.sequence;
          hedged_notional = claim.hedged_notional;
          collateral_notional = book_notional;
          oracle_publish_time = price.publish_time;
          oracle_posted_slot = price.posted_slot;
          slot = clock.slot;
          timestamp = clock.unix_timestamp;
          oracle_price = price.price;
          oracle_conf = price.conf;
          delta_bps_before = claim.delta_bps_before;
          delta_bps_after = delta_after_onchain;
          oracle_expo = price.expo;
          venue_id = claim.venue_id;
        },
        record ctx.keeper_account {
          proofs_committed = committed;
          last_proof_at = clock.unix_timestamp;
          last_proof_slot = clock.slot;
        },
      );
      tokens = tokens;
      event = record {
        config = rt.config_key;
        proof = rt.proof_key claim.sequence;
        keeper = ctx.keeper;
        sequence = claim.sequence;
        venues_hash = claim.venues_hash;
        prev_hash = prev_hash;
        this_hash = this_hash;
        venue_id = claim.venue_id;
        delta_bps_before = claim.delta_bps_before;
        delta_bps_after = delta_after_onchain;
        hedged_notional = claim.hedged_notional;
        collateral_notional = book_notional;
        oracle_price = price.price;
        oracle_conf = price.conf;
        oracle_expo = price.expo;
        oracle_publish_time = price.publish_time;
        oracle_posted_slot = price.posted_slot;
        slot = clock.slot;
        timestamp = clock.unix_timestamp;
      };
    })
