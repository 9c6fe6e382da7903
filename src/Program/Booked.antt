-- ===== src/Program/Booked.antt =====
-- The config's counts against the accounts that they count (programs/poyz/src/state.rs), and what a change
-- of one kind of accounts must show to keep them equal.
pub mod Steps
use plott.Common.{ℕ, ◌≤◌, ◌≡◌, arith, List}
use plott.State.{Config, Keeper, MintRequest, RedeemRequest, RebalanceProof, StakePosition}
use plott.State.Ledger.{ledger_of}
use plott.Keepers.Tracked.{counted}
use plott.Program.Store.{total}
use plott.Program.World.{World}

abbrev pub escrowed : List MintRequest → ℕ
escrowed requests = total (λ (r : MintRequest). r.collateral_amount) requests

abbrev pub in_flight : List RedeemRequest → ℕ
in_flight requests = total (λ (r : RedeemRequest). r.synthetic_amount) requests

abbrev pub bonds : List Keeper → ℕ
bonds keepers = total (λ (k : Keeper). k.bonded) keepers

abbrev pub slashes : List Keeper → ℕ
slashes keepers = total (λ (k : Keeper). k.slashed) keepers

abbrev pub actives : List Keeper → ℕ
actives keepers = total (λ (k : Keeper). counted k.active) keepers

abbrev pub stakes : List StakePosition → ℕ
stakes positions = total (λ (p : StakePosition). p.amount) positions

-- The config's counts are the sums over the accounts, and what waits to be redeemed is no more than what
-- is issued.
pub record IsBooked {T : Type 0} (w : World T) : Type 0 where
  pub mints : w.config.pending_collateral ≡ escrowed w.mint_requests
  pub redeems : w.config.pending_redeem_synthetic ≡ in_flight w.redeem_requests
  pub covered : w.config.pending_redeem_synthetic ≤ w.config.total_synthetic
  pub bonded : w.config.bonded_total ≡ bonds w.keepers
  pub slashed : w.config.slashed_total ≡ slashes w.keepers
  pub active : w.config.keeper_count ≡ actives w.keepers
  pub staked : w.config.total_staked ≡ stakes w.positions

module _ {T : Type 0} (w : World T) (b : IsBooked w) (c : Config) (t : T) where
  -- Where neither a count nor a counted account changes.
  pub quiet-IsBooked :
      ledger_of c ≡ record (ledger_of w.config) {
        acc_funding_per_share = c.acc_funding_per_share;
        staker_funding_balance = c.staker_funding_balance;
        buffer_balance = c.buffer_balance;
      }
      → IsBooked (record w { config = c; tokens = t })
  quiet-IsBooked l = record {
    mints = ground (arith, l, b.mints);
    redeems = ground (arith, l, b.redeems);
    covered = ground (arith, l, b.covered);
    bonded = ground (arith, l, b.bonded);
    slashed = ground (arith, l, b.slashed);
    active = ground (arith, l, b.active);
    staked = ground (arith, l, b.staked);
  }

  pub keepers-IsBooked :
      (keepers : List Keeper) (proofs : List RebalanceProof)
      → ledger_of c ≡ record (ledger_of w.config) {
        bonded_total = c.bonded_total;
        slashed_total = c.slashed_total;
        keeper_count = c.keeper_count;
        rebalance_count = c.rebalance_count;
        last_proof_slot = c.last_proof_slot;
        last_proof_hash = c.last_proof_hash;
        hedged_notional = c.hedged_notional;
      }
      → c.bonded_total ≡ bonds keepers
      → c.slashed_total ≡ slashes keepers
      → c.keeper_count ≡ actives keepers
      → IsBooked (record w { config = c; keepers = keepers; proofs = proofs; tokens = t })
  keepers-IsBooked keepers proofs l bonded slashed active = record {
    mints = ground (arith, l, b.mints);
    redeems = ground (arith, l, b.redeems);
    covered = ground (arith, l, b.covered);
    bonded = bonded;
    slashed = slashed;
    active = active;
    staked = ground (arith, l, b.staked);
  }

  pub mints-IsBooked :
      (requests : List MintRequest)
      → ledger_of c ≡ record (ledger_of w.config) {
        pending_collateral = c.pending_collateral;
        total_collateral = c.total_collateral;
        total_synthetic = c.total_synthetic;
        hedged_notional = c.hedged_notional;
      }
      → c.pending_collateral ≡ escrowed requests
      → w.config.total_synthetic ≤ c.total_synthetic
      → IsBooked (record w { config = c; mint_requests = requests; tokens = t })
  mints-IsBooked requests l h more = record {
    mints = h;
    redeems = ground (arith, l, b.redeems);
    covered = ground (arith, l, b.covered, more);
    bonded = ground (arith, l, b.bonded);
    slashed = ground (arith, l, b.slashed);
    active = ground (arith, l, b.active);
    staked = ground (arith, l, b.staked);
  }

  pub redeems-IsBooked :
      (requests : List RedeemRequest)
      → ledger_of c ≡ record (ledger_of w.config) {
        pending_redeem_synthetic = c.pending_redeem_synthetic;
        total_collateral = c.total_collateral;
        total_synthetic = c.total_synthetic;
        hedged_notional = c.hedged_notional;
      }
      → c.pending_redeem_synthetic ≡ in_flight requests
      → c.pending_redeem_synthetic ≤ c.total_synthetic
      → IsBooked (record w { config = c; redeem_requests = requests; tokens = t })
  redeems-IsBooked requests l h covered = record {
    mints = ground (arith, l, b.mints);
    redeems = h;
    covered = covered;
    bonded = ground (arith, l, b.bonded);
    slashed = ground (arith, l, b.slashed);
    active = ground (arith, l, b.active);
    staked = ground (arith, l, b.staked);
  }

  pub stakes-IsBooked :
      (positions : List StakePosition)
      → ledger_of c ≡ record (ledger_of w.config) {
        total_staked = c.total_staked;
        staker_funding_balance = c.staker_funding_balance;
      }
      → c.total_staked ≡ stakes positions
      → IsBooked (record w { config = c; positions = positions; tokens = t })
  stakes-IsBooked positions l h = record {
    mints = ground (arith, l, b.mints);
    redeems = ground (arith, l, b.redeems);
    covered = ground (arith, l, b.covered);
    bonded = ground (arith, l, b.bonded);
    slashed = ground (arith, l, b.slashed);
    active = ground (arith, l, b.active);
    staked = h;
  }
