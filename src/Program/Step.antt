-- ===== src/Program/Step.antt =====
-- What one successful instruction of programs/poyz/src/lib.rs does to the world, as a relation: a case for
-- each, with the accounts that it found and what its handler returned.
pub mod Sound
pub mod Complete
use plott.Common.{ℕ, ◌≡◌, ◌⊎◌, none, some, [], ◌∷◌, ok, Result-cases, Option-cases, ◌>>=◌}
use plott.State.{Config, Keeper, MintRequest, RedeemRequest, RebalanceProof, StakePosition}
use plott.State.Keys.{Hash}
use plott.Runtime.{Runtime, Clock, Done}
use plott.Events.Keepers.{
  KeeperRegistered, KeeperBonded, KeeperUnbonded, KeeperSlashed, RebalanceProofCommitted,
}
use plott.Events.Requests.{
  MintRequested, MintConfirmed, MintCancelled, RedeemRequested, RedeemConfirmed, RedeemCancelled,
}
use plott.Events.Funding.{
  FundingSettled, Staked, UnstakeRequested, Unstaked, FundingClaimed, BufferDeposited,
  BufferWithdrawn,
}
use plott.Keepers.Accounts.{KeeperRegisterCtx, KeeperBondCtx, KeeperSlashCtx}
use plott.Keepers
use plott.Proof.{CommitRebalanceProofCtx, Claim}
use plott.Proof
use plott.Mint.Accounts.{MintRequestCtx, MintConfirmCtx, MintCancelCtx}
use plott.Mint
use plott.Redeem.Accounts.{RedeemRequestCtx, RedeemConfirmCtx, RedeemCancelCtx}
use plott.Redeem
use plott.Funding.Accounts.{SettleFundingCtx, StakeCtx, UnstakeCtx}
use plott.Funding
use plott.Buffer.{BufferDepositCtx, BufferWithdrawCtx}
use plott.Buffer
use plott.Program.Store.{find, remove, store}
use plott.Program.World.{
  World, is_keeper, is_mint_request, is_redeem_request, is_position, is_proof,
}
use plott.Program.Administer.{Administration, administer}
use plott.Program.Execute.{Instruction, or_new}
use plott.Program.Execute

pub data Step {T : Type 0} (rt : Runtime T) (clock : Clock) (w w' : World T)
    : Instruction → Type 0 where
  administered :
      (change : Administration) (config : Config)
      → administer rt w.tokens clock w.keepers w.config change ≡ ok config
      → w' ≡ record w { config = config }
      → Step rt clock w w' (Instruction.administration change)
  keeper_registered :
      (ctx : KeeperRegisterCtx) (amount : ℕ) (d : Done T Keeper KeeperRegistered)
      → find (is_keeper ctx.keeper) w.keepers ≡ none
      → Keepers.keeper_register rt w.tokens clock (record ctx { config = w.config }) amount ≡ ok d
      → w' ≡ record w { config = d.config; keepers = d.account ∷ w.keepers; tokens = d.tokens }
      → Step rt clock w w' (Instruction.keeper_register ctx amount)
  keeper_bonded :
      (ctx : KeeperBondCtx) (amount : ℕ) (keeper : Keeper) (d : Done T Keeper KeeperBonded)
      → find (is_keeper ctx.keeper) w.keepers ≡ some keeper
      → Keepers.keeper_bond rt w.tokens clock
          (record ctx { config = w.config; keeper_account = keeper })
          amount
        ≡ ok d
      → w' ≡ record w {
        config = d.config;
        keepers = store (is_keeper ctx.keeper) d.account w.keepers;
        tokens = d.tokens;
      }
      → Step rt clock w w' (Instruction.keeper_bond ctx amount)
  keeper_unbonded :
      (ctx : KeeperBondCtx) (amount : ℕ) (keeper : Keeper) (d : Done T Keeper KeeperUnbonded)
      → find (is_keeper ctx.keeper) w.keepers ≡ some keeper
      → Keepers.keeper_unbond rt w.tokens clock
          (record ctx { config = w.config; keeper_account = keeper })
          amount
        ≡ ok d
      → w' ≡ record w {
        config = d.config;
        keepers = store (is_keeper ctx.keeper) d.account w.keepers;
        tokens = d.tokens;
      }
      → Step rt clock w w' (Instruction.keeper_unbond ctx amount)
  keeper_slashed :
      (ctx : KeeperSlashCtx) (amount reason : ℕ) (evidence : Hash) (keeper : Keeper)
      (d : Done T Keeper KeeperSlashed)
      → find (is_keeper ctx.keeper_account.keeper) w.keepers ≡ some keeper
      → Keepers.keeper_slash rt w.tokens clock
          (record ctx { config = w.config; keeper_account = keeper })
          amount
          reason
          evidence
        ≡ ok d
      → w' ≡ record w {
        config = d.config;
        keepers = store (is_keeper ctx.keeper_account.keeper) d.account w.keepers;
        tokens = d.tokens;
      }
      → Step rt clock w w' (Instruction.keeper_slash ctx amount reason evidence)
  proof_committed :
      (ctx : CommitRebalanceProofCtx) (claim : Claim) (keeper : Keeper)
      (d : Done T (RebalanceProof × Keeper) RebalanceProofCommitted)
      → find (is_proof claim.sequence) w.proofs ≡ none
      → find (is_keeper ctx.keeper) w.keepers ≡ some keeper
      → Proof.commit_rebalance_proof rt w.tokens clock
          (record ctx { config = w.config; keeper_account = keeper })
          claim
        ≡ ok d
      → w' ≡ record w {
        config = d.config;
        keepers = store (is_keeper ctx.keeper) d.account.1 w.keepers;
        proofs = d.account.0 ∷ w.proofs;
        tokens = d.tokens;
      }
      → Step rt clock w w' (Instruction.commit_rebalance_proof ctx claim)
  mint_requested :
      (ctx : MintRequestCtx) (nonce amount least : ℕ) (d : Done T MintRequest MintRequested)
      → find (is_mint_request ctx.user nonce) w.mint_requests ≡ none
      → Mint.mint_request rt w.tokens clock (record ctx { config = w.config }) nonce amount least
        ≡ ok d
      → w' ≡ record w {
        config = d.config;
        mint_requests = d.account ∷ w.mint_requests;
        tokens = d.tokens;
      }
      → Step rt clock w w' (Instruction.mint_request ctx nonce amount least)
  mint_confirmed :
      (ctx : MintConfirmCtx) (nonce : ℕ) (hash : Hash) (venue_id filled : ℕ) (keeper : Keeper)
      (request : MintRequest) (d : Done T (Unit {0}) MintConfirmed)
      → find (is_keeper ctx.keeper) w.keepers ≡ some keeper
      → find (is_mint_request ctx.user nonce) w.mint_requests ≡ some request
      → Mint.mint_confirm rt w.tokens clock
          (record ctx { config = w.config; keeper_account = keeper; request = request })
          hash
          venue_id
          filled
        ≡ ok d
      → w' ≡ record w {
        config = d.config;
        mint_requests = remove (is_mint_request ctx.user nonce) w.mint_requests;
        tokens = d.tokens;
      }
      → Step rt clock w w' (Instruction.mint_confirm ctx nonce hash venue_id filled)
  mint_cancelled :
      (ctx : MintCancelCtx) (nonce : ℕ) (request : MintRequest)
      (d : Done T (Unit {0}) MintCancelled)
      → find (is_mint_request ctx.user nonce) w.mint_requests ≡ some request
      → Mint.mint_cancel rt w.tokens clock (record ctx { config = w.config; request = request })
        ≡ ok d
      → w' ≡ record w {
        config = d.config;
        mint_requests = remove (is_mint_request ctx.user nonce) w.mint_requests;
        tokens = d.tokens;
      }
      → Step rt clock w w' (Instruction.mint_cancel ctx nonce)
  redeem_requested :
      (ctx : RedeemRequestCtx) (nonce amount least : ℕ) (d : Done T RedeemRequest RedeemRequested)
      → find (is_redeem_request ctx.user nonce) w.redeem_requests ≡ none
      → Redeem.redeem_request rt w.tokens clock
          (record ctx { config = w.config })
          nonce
          amount
          least
        ≡ ok d
      → w' ≡ record w {
        config = d.config;
        redeem_requests = d.account ∷ w.redeem_requests;
        tokens = d.tokens;
      }
      → Step rt clock w w' (Instruction.redeem_request ctx nonce amount least)
  redeem_confirmed :
      (ctx : RedeemConfirmCtx) (nonce : ℕ) (hash : Hash) (venue_id unwound : ℕ) (keeper : Keeper)
      (request : RedeemRequest) (d : Done T (Unit {0}) RedeemConfirmed)
      → find (is_keeper ctx.keeper) w.keepers ≡ some keeper
      → find (is_redeem_request ctx.user nonce) w.redeem_requests ≡ some request
      → Redeem.redeem_confirm rt w.tokens clock
          (record ctx { config = w.config; keeper_account = keeper; request = request })
          hash
          venue_id
          unwound
        ≡ ok d
      → w' ≡ record w {
        config = d.config;
        redeem_requests = remove (is_redeem_request ctx.user nonce) w.redeem_requests;
        tokens = d.tokens;
      }
      → Step rt clock w w' (Instruction.redeem_confirm ctx nonce hash venue_id unwound)
  redeem_cancelled :
      (ctx : RedeemCancelCtx) (nonce : ℕ) (request : RedeemRequest)
      (d : Done T (Unit {0}) RedeemCancelled)
      → find (is_redeem_request ctx.user nonce) w.redeem_requests ≡ some request
      → Redeem.redeem_cancel rt w.tokens clock (record ctx { config = w.config; request = request })
        ≡ ok d
      → w' ≡ record w {
        config = d.config;
        redeem_requests = remove (is_redeem_request ctx.user nonce) w.redeem_requests;
        tokens = d.tokens;
      }
      → Step rt clock w w' (Instruction.redeem_cancel ctx nonce)
  funding_settled :
      (ctx : SettleFundingCtx) (amount : ℕ) (d : Done T (Unit {0}) FundingSettled)
      → Funding.settle_funding rt w.tokens clock (record ctx { config = w.config }) amount ≡ ok d
      → w' ≡ record w { config = d.config; tokens = d.tokens }
      → Step rt clock w w' (Instruction.settle_funding ctx amount)
  staked :
      (ctx : StakeCtx) (amount : ℕ) (d : Done T StakePosition Staked)
      → Funding.stake rt w.tokens clock
          (record ctx {
            config = w.config;
            position = or_new (find (is_position ctx.owner) w.positions);
          })
          amount
        ≡ ok d
      → w' ≡ record w {
        config = d.config;
        positions = store (is_position ctx.owner) d.account w.positions;
        tokens = d.tokens;
      }
      → Step rt clock w w' (Instruction.stake ctx amount)
  unstake_requested :
      (ctx : UnstakeCtx) (amount : ℕ) (position : StakePosition)
      (d : Done T StakePosition UnstakeRequested)
      → find (is_position ctx.owner) w.positions ≡ some position
      → Funding.request_unstake rt w.tokens clock
          (record ctx { config = w.config; position = position })
          amount
        ≡ ok d
      → w' ≡ record w {
        config = d.config;
        positions = store (is_position ctx.owner) d.account w.positions;
        tokens = d.tokens;
      }
      → Step rt clock w w' (Instruction.request_unstake ctx amount)
  unstaked :
      (ctx : UnstakeCtx) (position : StakePosition) (d : Done T StakePosition Unstaked)
      → find (is_position ctx.owner) w.positions ≡ some position
      → Funding.unstake rt w.tokens clock (record ctx { config = w.config; position = position })
        ≡ ok d
      → w' ≡ record w {
        config = d.config;
        positions = store (is_position ctx.owner) d.account w.positions;
        tokens = d.tokens;
      }
      → Step rt clock w w' (Instruction.unstake ctx)
  funding_claimed :
      (ctx : UnstakeCtx) (position : StakePosition) (d : Done T StakePosition FundingClaimed)
      → find (is_position ctx.owner) w.positions ≡ some position
      → Funding.claim_funding rt w.tokens clock
          (record ctx { config = w.config; position = position })
        ≡ ok d
      → w' ≡ record w {
        config = d.config;
        positions = store (is_position ctx.owner) d.account w.positions;
        tokens = d.tokens;
      }
      → Step rt clock w w' (Instruction.claim_funding ctx)
  buffer_deposited :
      (ctx : BufferDepositCtx) (amount : ℕ) (d : Done T (Unit {0}) BufferDeposited)
      → Buffer.buffer_deposit rt w.tokens clock (record ctx { config = w.config }) amount ≡ ok d
      → w' ≡ record w { config = d.config; tokens = d.tokens }
      → Step rt clock w w' (Instruction.buffer_deposit ctx amount)
  buffer_withdrawn :
      (ctx : BufferWithdrawCtx) (amount : ℕ) (d : Done T (Unit {0}) BufferWithdrawn)
      → Buffer.buffer_withdraw rt w.tokens clock (record ctx { config = w.config }) amount ≡ ok d
      → w' ≡ record w { config = d.config; tokens = d.tokens }
      → Step rt clock w w' (Instruction.buffer_withdraw ctx amount)
