-- ===== src/Events/Requests.antt =====
-- The events of programs/poyz/src/events.rs about minting and redeeming.
use plott.Common.{ℕ}
use plott.Common.Int.{ℤ}
use plott.State.Keys.{Pubkey, Hash}

pub record MintRequested : Type 0 where
  pub config : Pubkey
  pub request : Pubkey
  pub user : Pubkey
  pub nonce : ℕ
  pub collateral_amount : ℕ
  pub quoted_notional : ℕ
  pub quoted_price : ℤ
  pub quoted_expo : ℤ
  pub deadline : ℤ

pub record MintConfirmed : Type 0 where
  pub config : Pubkey
  pub user : Pubkey
  pub keeper : Pubkey
  pub nonce : ℕ
  pub collateral_amount : ℕ
  pub effective_notional : ℕ
  pub synthetic_minted : ℕ
  pub fee : ℕ
  pub filled_notional : ℕ
  pub venue_id : ℕ
  pub hedge_proof_hash : Hash
  pub total_synthetic : ℕ
  pub total_collateral : ℕ
  pub hedged_notional : ℕ
  pub timestamp : ℤ

pub record MintCancelled : Type 0 where
  pub config : Pubkey
  pub user : Pubkey
  pub nonce : ℕ
  pub collateral_returned : ℕ
  pub timestamp : ℤ

pub record RedeemRequested : Type 0 where
  pub config : Pubkey
  pub request : Pubkey
  pub user : Pubkey
  pub nonce : ℕ
  pub synthetic_amount : ℕ
  pub quoted_collateral : ℕ
  pub quoted_price : ℤ
  pub quoted_expo : ℤ
  pub deadline : ℤ

pub record RedeemConfirmed : Type 0 where
  pub config : Pubkey
  pub user : Pubkey
  pub keeper : Pubkey
  pub nonce : ℕ
  pub synthetic_burned : ℕ
  pub collateral_returned : ℕ
  pub fee : ℕ
  pub unwound_notional : ℕ
  pub venue_id : ℕ
  pub unwind_proof_hash : Hash
  pub total_synthetic : ℕ
  pub total_collateral : ℕ
  pub hedged_notional : ℕ
  pub timestamp : ℤ

pub record RedeemCancelled : Type 0 where
  pub config : Pubkey
  pub user : Pubkey
  pub nonce : ℕ
  pub synthetic_returned : ℕ
  pub timestamp : ℤ
