-- ===== src/Program/Execute.antt =====
-- The instructions of programs/poyz/src/lib.rs on the accounts of the world: which accounts each finds,
-- makes (`init`) and closes (`close`) by the seeds of its context.
use plott.Common.{ℕ, Option, none, some, [], ◌∷◌, Result, ok, err, account_in_use, ◌>>=◌, ◌>>◌}
use plott.State.{StakePosition}
use plott.State.Keys.{Hash}
use plott.Runtime.{Runtime, Clock}
use plott.Admin.Params.{InitializeParams}
use plott.Admin.Accounts.{InitializeCtx}
use plott.Admin.Initialize.{initialize}
use plott.Keepers.Accounts.{KeeperRegisterCtx, KeeperBondCtx, KeeperSlashCtx}
use plott.Keepers
use plott.Proof.{CommitRebalanceProofCtx, Claim}
use plott.Proof
use plott.Mint.Accounts.{MintRequestCtx, MintConfirmCtx, MintCancelCtx}
use plott.Mint
use plott.Redeem.Accounts.{RedeemRequestCtx, RedeemConfirmCtx, RedeemCancelCtx}
use plott.Redeem
use plott.Funding.Accounts.{SettleFundingCtx, StakeCtx, UnstakeCtx}
use plott.Funding.{new_position}
use plott.Funding
use plott.Buffer.{BufferDepositCtx, BufferWithdrawCtx}
use plott.Buffer
use plott.Program.Store.{find, remove, store}
use plott.Program.World.{
  World, is_keeper, is_mint_request, is_redeem_request, is_position, is_proof,
}
use plott.Program.Administer.{Administration, administer, loaded}

pub data Instruction : Type 0 where
  initialize_again : InitializeCtx → InitializeParams → Instruction
  administration : Administration → Instruction
  keeper_register : KeeperRegisterCtx → ℕ → Instruction
  keeper_bond : KeeperBondCtx → ℕ → Instruction
  keeper_unbond : KeeperBondCtx → ℕ → Instruction
  keeper_slash : KeeperSlashCtx → ℕ → ℕ → Hash → Instruction
  commit_rebalance_proof : CommitRebalanceProofCtx → Claim → Instruction
  mint_request : MintRequestCtx → ℕ → ℕ → ℕ → Instruction
  mint_confirm : MintConfirmCtx → ℕ → Hash → ℕ → ℕ → Instruction
  mint_cancel : MintCancelCtx → ℕ → Instruction
  redeem_request : RedeemRequestCtx → ℕ → ℕ → ℕ → Instruction
  redeem_confirm : RedeemConfirmCtx → ℕ → Hash → ℕ → ℕ → Instruction
  redeem_cancel : RedeemCancelCtx → ℕ → Instruction
  settle_funding : SettleFundingCtx → ℕ → Instruction
  stake : StakeCtx → ℕ → Instruction
  request_unstake : UnstakeCtx → ℕ → Instruction
  unstake : UnstakeCtx → Instruction
  claim_funding : UnstakeCtx → Instruction
  buffer_deposit : BufferDepositCtx → ℕ → Instruction
  buffer_withdraw : BufferWithdrawCtx → ℕ → Instruction

-- `init`: an account that exists is not made again.
abbrev pub vacant : {A : Type 0} → Option A → Result (Unit {0})
vacant none = ok tt
vacant (some account) = err account_in_use

-- `init_if_needed`, which makes a position of zeros.
abbrev pub or_new : Option StakePosition → StakePosition
or_new none = new_position
or_new (some position) = position

module _ {T : Type 0} (rt : Runtime T) (clock : Clock) where
  unfoldable pub execute : Instruction → World T → Result (World T)
  execute (initialize_again ctx params) w = err account_in_use
  execute (administration change) w = do
    config ← administer rt w.tokens clock w.keepers w.config change
    ok (record w { config = config })
  execute (keeper_register ctx amount) w = do
    vacant (find (is_keeper ctx.keeper) w.keepers)
    d ← Keepers.keeper_register rt w.tokens clock (record ctx { config = w.config }) amount
    ok (record w { config = d.config; keepers = d.account ∷ w.keepers; tokens = d.tokens })
  execute (keeper_bond ctx amount) w = do
    let at = is_keeper ctx.keeper
    keeper ← loaded (find at w.keepers)
    d ←
        Keepers.keeper_bond rt w.tokens clock
          (record ctx { config = w.config; keeper_account = keeper }) amount
    ok (record w { config = d.config; keepers = store at d.account w.keepers; tokens = d.tokens })
  execute (keeper_unbond ctx amount) w = do
    let at = is_keeper ctx.keeper
    keeper ← loaded (find at w.keepers)
    d ←
        Keepers.keeper_unbond rt w.tokens clock
          (record ctx { config = w.config; keeper_account = keeper }) amount
    ok (record w { config = d.config; keepers = store at d.account w.keepers; tokens = d.tokens })
  -- The keeper's seed is its own account's key.
  execute (keeper_slash ctx amount reason_code evidence_hash) w = do
    let at = is_keeper ctx.keeper_account.keeper
    keeper ← loaded (find at w.keepers)
    d ←
        Keepers.keeper_slash rt w.tokens clock
          (record ctx { config = w.config; keeper_account = keeper }) amount reason_code
          evidence_hash
    ok (record w { config = d.config; keepers = store at d.account w.keepers; tokens = d.tokens })
  execute (commit_rebalance_proof ctx claim) w = do
    vacant (find (is_proof claim.sequence) w.proofs)
    let at = is_keeper ctx.keeper
    keeper ← loaded (find at w.keepers)
    d ←
        Proof.commit_rebalance_proof rt w.tokens clock
          (record ctx { config = w.config; keeper_account = keeper }) claim
    ok (record w {
      config = d.config;
      keepers = store at d.account.1 w.keepers;
      proofs = d.account.0 ∷ w.proofs;
      tokens = d.tokens;
    })
  execute (mint_request ctx nonce amount least) w = do
    vacant (find (is_mint_request ctx.user nonce) w.mint_requests)
    d ← Mint.mint_request rt w.tokens clock (record ctx { config = w.config }) nonce amount least
    ok (record w {
      config = d.config;
      mint_requests = d.account ∷ w.mint_requests;
      tokens = d.tokens;
    })
  execute (mint_confirm ctx nonce hash venue_id filled) w = do
    let at = is_mint_request ctx.user nonce
    keeper ← loaded (find (is_keeper ctx.keeper) w.keepers)
    request ← loaded (find at w.mint_requests)
    d ←
        Mint.mint_confirm rt w.tokens clock
          (record ctx { config = w.config; keeper_account = keeper; request = request }) hash
          venue_id filled
    ok (record w {
      config = d.config;
      mint_requests = remove at w.mint_requests;
      tokens = d.tokens;
    })
  execute (mint_cancel ctx nonce) w = do
    let at = is_mint_request ctx.user nonce
    request ← loaded (find at w.mint_requests)
    d ← Mint.mint_cancel rt w.tokens clock (record ctx { config = w.config; request = request })
    ok (record w {
      config = d.config;
      mint_requests = remove at w.mint_requests;
      tokens = d.tokens;
    })
  execute (redeem_request ctx nonce amount least) w = do
    vacant (find (is_redeem_request ctx.user nonce) w.redeem_requests)
    d ←
        Redeem.redeem_request rt w.tokens clock (record ctx { config = w.config }) nonce amount
          least
    ok (record w {
      config = d.config;
      redeem_requests = d.account ∷ w.redeem_requests;
      tokens = d.tokens;
    })
  execute (redeem_confirm ctx nonce hash venue_id unwound) w = do
    let at = is_redeem_request ctx.user nonce
    keeper ← loaded (find (is_keeper ctx.keeper) w.keepers)
    request ← loaded (find at w.redeem_requests)
    d ←
        Redeem.redeem_confirm rt w.tokens clock
          (record ctx { config = w.config; keeper_account = keeper; request = request }) hash
          venue_id unwound
    ok (record w {
      config = d.config;
      redeem_requests = remove at w.redeem_requests;
      tokens = d.tokens;
    })
  execute (redeem_cancel ctx nonce) w = do
    let at = is_redeem_request ctx.user nonce
    request ← loaded (find at w.redeem_requests)
    d ← Redeem.redeem_cancel rt w.tokens clock (record ctx { config = w.config; request = request })
    ok (record w {
      config = d.config;
      redeem_requests = remove at w.redeem_requests;
      tokens = d.tokens;
    })
  execute (settle_funding ctx amount) w = do
    d ← Funding.settle_funding rt w.tokens clock (record ctx { config = w.config }) amount
    ok (record w { config = d.config; tokens = d.tokens })
  execute (stake ctx amount) w = do
    let at = is_position ctx.owner
    let position = or_new (find at w.positions)
    d ←
        Funding.stake rt w.tokens clock (record ctx { config = w.config; position = position })
          amount
    ok (record w {
      config = d.config;
      positions = store at d.account w.positions;
      tokens = d.tokens;
    })
  execute (request_unstake ctx amount) w = do
    let at = is_position ctx.owner
    position ← loaded (find at w.positions)
    d ←
        Funding.request_unstake rt w.tokens clock
          (record ctx { config = w.config; position = position }) amount
    ok (record w {
      config = d.config;
      positions = store at d.account w.positions;
      tokens = d.tokens;
    })
  execute (unstake ctx) w = do
    let at = is_position ctx.owner
    position ← loaded (find at w.positions)
    d ← Funding.unstake rt w.tokens clock (record ctx { config = w.config; position = position })
    ok (record w {
      config = d.config;
      positions = store at d.account w.positions;
      tokens = d.tokens;
    })
  execute (claim_funding ctx) w = do
    let at = is_position ctx.owner
    position ← loaded (find at w.positions)
    d ←
        Funding.claim_funding rt w.tokens clock
          (record ctx { config = w.config; position = position })
    ok (record w {
      config = d.config;
      positions = store at d.account w.positions;
      tokens = d.tokens;
    })
  execute (buffer_deposit ctx amount) w = do
    d ← Buffer.buffer_deposit rt w.tokens clock (record ctx { config = w.config }) amount
    ok (record w { config = d.config; tokens = d.tokens })
  execute (buffer_withdraw ctx amount) w = do
    d ← Buffer.buffer_withdraw rt w.tokens clock (record ctx { config = w.config }) amount
    ok (record w { config = d.config; tokens = d.tokens })

  -- `initialize`, which makes the config account; no other account of the program exists before.
  unfoldable pub launch : InitializeCtx → InitializeParams → T → Result (World T)
  launch ctx params tokens = do
    d ← initialize rt tokens clock ctx params
    ok (record {
      config = d.config;
      keepers = [];
      mint_requests = [];
      redeem_requests = [];
      positions = [];
      proofs = [];
      tokens = d.tokens;
    })
