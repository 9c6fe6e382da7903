-- ===== src/Pyth.antt =====
-- The account types of the price oracle that programs/poyz/src/oracle.rs declares.
use plott.Common.{ℕ, List}
use plott.Common.Int.{ℤ}
use plott.State.Keys.{Pubkey, Hash}

-- `AccountInfo` of the oracle account.
pub record AccountInfo : Type 0 where
  pub key : Pubkey
  pub owner : Pubkey
  pub bytes : List ℕ

-- `enum VerificationLevel`
pub data VerificationLevel : Type 0 where
  partial : ℕ → VerificationLevel
  full : VerificationLevel

pub record PriceFeedMessage : Type 0 where
  pub feed_id : Hash
  pub price : ℤ
  pub conf : ℕ
  pub exponent : ℤ
  pub publish_time : ℤ
  pub prev_publish_time : ℤ
  pub ema_price : ℤ
  pub ema_conf : ℕ

pub record PriceUpdateV2 : Type 0 where
  pub write_authority : Pubkey
  pub verification_level : VerificationLevel
  pub price_message : PriceFeedMessage
  pub posted_slot : ℕ

-- The subset of a validated update that the protocol uses.
pub record OraclePrice : Type 0 where
  pub price : ℤ
  pub expo : ℤ
  pub conf : ℕ
  pub publish_time : ℤ
  pub posted_slot : ℕ
