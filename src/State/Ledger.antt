-- ===== src/State/Ledger.antt =====
-- The part of the config account that keeps the program's books (programs/poyz/src/state.rs): what handlers
-- count, as against what administration sets.
use plott.Common.{ℕ}
use plott.State.Keys.{Pubkey, Hash}
use plott.State.{Config}

pub record Ledger : Type 0 where
  pub collateral_mint : Pubkey
  pub synthetic_mint : Pubkey
  pub bond_mint : Pubkey
  pub last_proof_hash : Hash
  pub acc_funding_per_share : ℕ
  pub total_collateral : ℕ
  pub pending_collateral : ℕ
  pub total_synthetic : ℕ
  pub pending_redeem_synthetic : ℕ
  pub hedged_notional : ℕ
  pub total_staked : ℕ
  pub staker_funding_balance : ℕ
  pub buffer_balance : ℕ
  pub bonded_total : ℕ
  pub slashed_total : ℕ
  pub rebalance_count : ℕ
  pub last_proof_slot : ℕ
  pub keeper_count : ℕ

abbrev pub ledger_of : Config → Ledger
ledger_of config = record {
  collateral_mint = config.collateral_mint;
  synthetic_mint = config.synthetic_mint;
  bond_mint = config.bond_mint;
  last_proof_hash = config.last_proof_hash;
  acc_funding_per_share = config.acc_funding_per_share;
  total_collateral = config.total_collateral;
  pending_collateral = config.pending_collateral;
  total_synthetic = config.total_synthetic;
  pending_redeem_synthetic = config.pending_redeem_synthetic;
  hedged_notional = config.hedged_notional;
  total_staked = config.total_staked;
  staker_funding_balance = config.staker_funding_balance;
  buffer_balance = config.buffer_balance;
  bonded_total = config.bonded_total;
  slashed_total = config.slashed_total;
  rebalance_count = config.rebalance_count;
  last_proof_slot = config.last_proof_slot;
  keeper_count = config.keeper_count;
}
