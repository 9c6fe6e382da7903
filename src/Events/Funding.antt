-- ===== src/Events/Funding.antt =====
-- The events of programs/poyz/src/events.rs about funding, staking and the buffer.
use plott.Common.{ℕ}
use plott.Common.Int.{ℤ}
use plott.State.Keys.{Pubkey}

pub record FundingSettled : Type 0 where
  pub config : Pubkey
  pub authority : Pubkey
  pub amount : ℕ
  pub to_stakers : ℕ
  pub to_buffer : ℕ
  pub net_carry_bps : ℤ
  pub acc_funding_per_share : ℕ
  pub total_staked : ℕ
  pub negative_funding_since : ℤ
  pub timestamp : ℤ

pub record Staked : Type 0 where
  pub config : Pubkey
  pub owner : Pubkey
  pub amount : ℕ
  pub position_amount : ℕ
  pub total_staked : ℕ

pub record UnstakeRequested : Type 0 where
  pub config : Pubkey
  pub owner : Pubkey
  pub amount : ℕ
  pub position_amount : ℕ
  pub pending_unstake : ℕ
  pub cooldown_end : ℤ
  pub total_staked : ℕ

pub record Unstaked : Type 0 where
  pub config : Pubkey
  pub owner : Pubkey
  pub amount : ℕ
  pub position_amount : ℕ
  pub total_staked : ℕ

pub record FundingClaimed : Type 0 where
  pub config : Pubkey
  pub owner : Pubkey
  pub amount : ℕ
  pub claimed_total : ℕ
  pub staker_funding_balance : ℕ

pub record BufferDeposited : Type 0 where
  pub config : Pubkey
  pub depositor : Pubkey
  pub amount : ℕ
  pub buffer_balance : ℕ

pub record BufferWithdrawn : Type 0 where
  pub config : Pubkey
  pub authority : Pubkey
  pub amount : ℕ
  pub buffer_balance : ℕ
  pub acc_funding_per_share : ℕ
  pub negative_funding_since : ℤ
  pub timestamp : ℤ
