-- ===== src/Funding/Books.antt =====
-- What the handlers of programs/poyz/src/instructions/funding.rs write into the books and the positions.
use plott.Common.{ℕ, ◌+◌, ◌-◌, ◌≤◌, ◌≡◌, some, ok, arith, Result-cases, inl, inr, ap, ◌^◌, ◌<◌}
use plott.State.{StakePosition}
use plott.State.Ledger.{ledger_of}
use plott.State.Settings.{settings_of}
use plott.Runtime.{Runtime, Clock, Done, vault, wallet, stake_vault, funding_vault}
use plott.Events.Funding.{FundingSettled, Staked, UnstakeRequested, Unstaked, FundingClaimed}
use plott.Funding.Accounts.{SettleFundingCtx, StakeCtx, UnstakeCtx}
use plott.Funding.Accrue.{accrue-credited}
use plott.Funding.Settle.{settle_funding-split}
use plott.Funding.{
  accrue, claim_position, settle_funding, stake, request_unstake, unstake, claim_funding,
}

-- What of a position the books count: its owner, its stake and what waits for the cooldown.
pub record Counted (p : StakePosition) (owner stake waiting : ℕ) : Type 0 where
  pub owned : p.owner ≡ owner
  pub staked : p.amount ≡ stake
  pub pending : p.pending_unstake ≡ waiting

accrue-Counted :
    (p : StakePosition) (acc : ℕ) (after : StakePosition)
    → accrue p acc ≡ ok after
    → Counted after p.owner p.amount p.pending_unstake
accrue-Counted p acc after h =
    let (e, up, sum, frame) = accrue-credited p acc after h in
    record { owned = cc; staked = cc; pending = cc }

claim_position-Counted :
    (p : StakePosition) (owner : ℕ) (owned : StakePosition)
    → claim_position p owner ≡ ok owned
    → Counted owned owner p.amount p.pending_unstake
unfolding claim_position
claim_position-Counted p owner owned h = record {
  owned = ground arith;
  staked = ground arith;
  pending = ground arith;
}

module _ {T : Type 0} (rt : Runtime T) (tokens : T) (clock : Clock) where
  module _ (ctx : SettleFundingCtx) (amount : ℕ) (d : Done T (Unit {0}) FundingSettled)
      (done : settle_funding rt tokens clock ctx amount ≡ ok d) where
    pub settle_funding-settings : settings_of d.config ≡ settings_of ctx.config
    settle_funding-settings =
        ap settings_of (settle_funding-split rt tokens clock ctx amount d done).4

    pub settle_funding-ledger : ledger_of d.config ≡ record (ledger_of ctx.config) {
      acc_funding_per_share = d.config.acc_funding_per_share;
      staker_funding_balance = ctx.config.staker_funding_balance + d.event.to_stakers;
      buffer_balance = ctx.config.buffer_balance + d.event.to_buffer;
    }
    settle_funding-ledger = ap ledger_of (settle_funding-split rt tokens clock ctx amount d done).4

  module _ (ctx : StakeCtx) (amount : ℕ) (d : Done T StakePosition Staked)
      (done : stake rt tokens clock ctx amount ≡ ok d) where
    pub stake-settings : settings_of d.config ≡ settings_of ctx.config
    unfolding stake
    stake-settings = ground arith

    pub stake-ledger :
        ledger_of d.config
        ≡ record (ledger_of ctx.config) { total_staked = ctx.config.total_staked + amount }
    unfolding stake
    stake-ledger = ground arith

    pub stake-transfer :
        rt.transfer_checked tokens
          (wallet ctx.owner_synthetic)
          ctx.synthetic_mint
          (vault stake_vault)
          ctx.owner
          amount
          (rt.mint_account tokens ctx.synthetic_mint).decimals
        ≡ some d.tokens
    unfolding stake
    stake-transfer = ground arith

    stake_owned : (owned : StakePosition) × (claim_position ctx.position ctx.owner ≡ ok owned)
    unfolding stake
    stake_owned = elim (Result-cases (claim_position ctx.position ctx.owner)) [
      | inl found ↦ found
      | inr (f, e) ↦ ground arith
    ]

    stake_of :
        (owned : StakePosition)
        → claim_position ctx.position ctx.owner ≡ ok owned
        → (accrued : StakePosition) × (accrue owned ctx.config.acc_funding_per_share ≡ ok accrued)
          × Counted d.account accrued.owner (accrued.amount + amount) accrued.pending_unstake
    unfolding stake
    stake_of owned e = elim (Result-cases (accrue owned ctx.config.acc_funding_per_share)) [
      | inl (a, k) ↦
          (a, k, record { owned = ground arith; staked = ground arith; pending = ground arith })
      | inr (f, k) ↦ ground arith
    ]

    pub stake-Counted :
        Counted d.account ctx.owner (ctx.position.amount + amount) ctx.position.pending_unstake
    stake-Counted =
        let (owned, e) = stake_owned in
        let (accrued, k, now) = stake_of owned e in
        let b = accrue-Counted owned ctx.config.acc_funding_per_share accrued k in
        let a = claim_position-Counted ctx.position ctx.owner owned e in
        record { owned = cc; staked = omega (arith, now, b, a); pending = cc }

  module _ (ctx : UnstakeCtx) (amount : ℕ) (d : Done T StakePosition UnstakeRequested)
      (done : request_unstake rt tokens clock ctx amount ≡ ok d) where
    pub request_unstake-settings : settings_of d.config ≡ settings_of ctx.config
    unfolding request_unstake
    request_unstake-settings = ground arith

    pub request_unstake-ledger :
        (ledger_of d.config
          ≡ record (ledger_of ctx.config) { total_staked = d.config.total_staked })
        × (d.config.total_staked + amount ≡ ctx.config.total_staked)
    unfolding request_unstake
    request_unstake-ledger = ground arith

    pub request_unstake_held : amount ≤ ctx.position.amount
    unfolding request_unstake
    request_unstake_held = ground arith

    pub request_unstake-tokens : d.tokens ≡ tokens
    unfolding request_unstake
    request_unstake-tokens = ground arith

    request_of :
        (accrued : StakePosition) × (accrue ctx.position ctx.config.acc_funding_per_share
          ≡ ok accrued)
        × Counted d.account accrued.owner
            (accrued.amount - amount)
            (accrued.pending_unstake + amount)
    unfolding request_unstake
    request_of = elim (Result-cases (accrue ctx.position ctx.config.acc_funding_per_share)) [
      | inl (a, k) ↦
          (a, k, record { owned = ground arith; staked = ground arith; pending = ground arith })
      | inr (f, k) ↦ ground arith
    ]

    pub request_unstake-Counted :
        Counted d.account ctx.position.owner
          (ctx.position.amount - amount)
          (ctx.position.pending_unstake + amount)
    request_unstake-Counted =
        let (accrued, k, now) = request_of in
        let a = accrue-Counted ctx.position ctx.config.acc_funding_per_share accrued k in
        record { owned = cc; staked = omega (arith, now, a); pending = omega (arith, now, a) }

  module _ (ctx : UnstakeCtx) (d : Done T StakePosition FundingClaimed)
      (done : claim_funding rt tokens clock ctx ≡ ok d) where
    pub claim_funding-settings : settings_of d.config ≡ settings_of ctx.config
    unfolding claim_funding
    claim_funding-settings = ground arith

    pub claim_funding-ledger :
        (ledger_of d.config ≡ record (ledger_of ctx.config) {
          staker_funding_balance = d.config.staker_funding_balance;
        })
        × (d.config.staker_funding_balance + d.event.amount ≡ ctx.config.staker_funding_balance)
    unfolding claim_funding
    claim_funding-ledger = ground arith

    pub claim_funding-transfer :
        rt.transfer_checked tokens
          (vault funding_vault)
          ctx.synthetic_mint
          (wallet ctx.owner_synthetic)
          rt.config_key
          d.event.amount
          (rt.mint_account tokens ctx.synthetic_mint).decimals
        ≡ some d.tokens
    unfolding claim_funding
    claim_funding-transfer = ground arith

    claim_of :
        (accrued : StakePosition) × (accrue ctx.position ctx.config.acc_funding_per_share
          ≡ ok accrued)
        × Counted d.account accrued.owner accrued.amount accrued.pending_unstake
    unfolding claim_funding
    claim_of = elim (Result-cases (accrue ctx.position ctx.config.acc_funding_per_share)) [
      | inl (a, k) ↦
          (a, k, record { owned = ground arith; staked = ground arith; pending = ground arith })
      | inr (f, k) ↦ ground arith
    ]

    pub claim_funding-Counted :
        Counted d.account ctx.position.owner ctx.position.amount ctx.position.pending_unstake
    claim_funding-Counted =
        let (accrued, k, now) = claim_of in
        let a = accrue-Counted ctx.position ctx.config.acc_funding_per_share accrued k in
        record { owned = cc; staked = cc; pending = cc }

  module _ (ctx : UnstakeCtx) (d : Done T StakePosition Unstaked)
      (done : unstake rt tokens clock ctx ≡ ok d) where
    pub unstake-owner : d.account.owner ≡ ctx.position.owner
    unfolding unstake
    unstake-owner = ground arith

module _ {T : Type 0} (rt : Runtime T) (tokens : T) (clock : Clock) where
  pub stake-fits :
      (ctx : StakeCtx) (amount : ℕ) (d : Done T StakePosition Staked)
      → stake rt tokens clock ctx amount ≡ ok d
      → d.config.total_staked < 2 ^ 64
  unfolding stake
  stake-fits ctx amount d done = ground arith

  pub settle_funding-fits :
      (ctx : SettleFundingCtx) (amount : ℕ) (d : Done T (Unit {0}) FundingSettled)
      → settle_funding rt tokens clock ctx amount ≡ ok d
      → ctx.config.staker_funding_balance < 2 ^ 64
      → ctx.config.buffer_balance < 2 ^ 64
      → ctx.config.acc_funding_per_share < 2 ^ 128
      → (d.config.staker_funding_balance < 2 ^ 64)
        × (d.config.buffer_balance < 2 ^ 64)
        × (d.config.acc_funding_per_share < 2 ^ 128)
  unfolding settle_funding
  settle_funding-fits ctx amount d done a b c = ground arith
