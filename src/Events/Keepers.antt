-- ===== src/Events/Keepers.antt =====
-- The events of programs/poyz/src/events.rs about keepers and execution proofs.
use plott.Common.{ℕ, Bool}
use plott.Common.Int.{ℤ}
use plott.State.Keys.{Pubkey, Hash}

pub record KeeperRegistered : Type 0 where
  pub config : Pubkey
  pub keeper : Pubkey
  pub bonded : ℕ
  pub keeper_count : ℕ
  pub timestamp : ℤ

pub record KeeperBonded : Type 0 where
  pub config : Pubkey
  pub keeper : Pubkey
  pub added : ℕ
  pub bonded : ℕ
  pub active : Bool

pub record KeeperUnbonded : Type 0 where
  pub config : Pubkey
  pub keeper : Pubkey
  pub withdrawn : ℕ
  pub bonded : ℕ
  pub active : Bool

pub record KeeperSlashed : Type 0 where
  pub config : Pubkey
  pub keeper : Pubkey
  pub slashed : ℕ
  pub bonded : ℕ
  pub active : Bool
  pub reason_code : ℕ
  pub evidence_hash : Hash

pub record RebalanceProofCommitted : Type 0 where
  pub config : Pubkey
  pub proof : Pubkey
  pub keeper : Pubkey
  pub sequence : ℕ
  pub venues_hash : Hash
  pub prev_hash : Hash
  pub this_hash : Hash
  pub venue_id : ℕ
  pub delta_bps_before : ℤ
  pub delta_bps_after : ℤ
  pub hedged_notional : ℕ
  pub collateral_notional : ℕ
  pub oracle_price : ℤ
  pub oracle_conf : ℕ
  pub oracle_expo : ℤ
  pub oracle_publish_time : ℤ
  pub oracle_posted_slot : ℕ
  pub slot : ℕ
  pub timestamp : ℤ
