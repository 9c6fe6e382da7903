-- ===== src/Program/World.antt =====
-- The accounts of the program on the chain (the seeds and account kinds of programs/poyz/src/state.rs).
use plott.Common.{ℕ, Bool, ◌==◌, ◌&&◌, List}
use plott.State.{Config, Keeper, MintRequest, RedeemRequest, RebalanceProof, StakePosition}
use plott.State.Keys.{Pubkey}

-- `T` is the state of the token program. Proofs stand newest first.
pub record World (T : Type 0) : Type 0 where
  pub config : Config
  pub keepers : List Keeper
  pub mint_requests : List MintRequest
  pub redeem_requests : List RedeemRequest
  pub positions : List StakePosition
  pub proofs : List RebalanceProof
  pub tokens : T

-- `[KEEPER_SEED, key]`
abbrev pub is_keeper : Pubkey → Keeper → Bool
is_keeper key account = account.keeper == key

-- `[MINT_REQUEST_SEED, user, nonce]`
abbrev pub is_mint_request : Pubkey → ℕ → MintRequest → Bool
is_mint_request user nonce account = account.user == user && account.nonce == nonce

-- `[REDEEM_REQUEST_SEED, user, nonce]`
abbrev pub is_redeem_request : Pubkey → ℕ → RedeemRequest → Bool
is_redeem_request user nonce account = account.user == user && account.nonce == nonce

-- `[STAKE_POSITION_SEED, owner]`
abbrev pub is_position : Pubkey → StakePosition → Bool
is_position owner account = account.owner == owner

-- `[REBALANCE_PROOF_SEED, sequence]`
abbrev pub is_proof : ℕ → RebalanceProof → Bool
is_proof sequence account = account.sequence == sequence
