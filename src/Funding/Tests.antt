-- ===== src/Funding/Tests.antt =====
-- Runs of the handlers of programs/poyz/src/instructions/funding.rs on the accounts of Examples/Setup, and
-- the theorems of this component there.
use plott.Common.{◌+◌, ◌-◌, ◌*◌, ◌≤◌, ◌<◌, ◌≡◌, refl, ◌⊎◌, true, ok, arith}
use plott.Common.Int.{◌+ℤ◌}
use plott.Examples.{is_ok, value_of, ok-value_of}
use plott.Examples.Setup.{config, update, rt, clock, tokens, account_of, position}
use plott.Examples.Ledger.{Tokens, runtime-TokenLaws}
use plott.Math.{acc_scale, acc_entitlement}
use plott.State.{StakePosition}
use plott.Runtime.{Done, vault, wallet, funding_vault}
use plott.Events.Funding.{FundingSettled, Staked, UnstakeRequested, Unstaked, FundingClaimed}
use plott.Funding.Accounts.{SettleFundingCtx, StakeCtx, UnstakeCtx}
use plott.Funding.Settle.{settle_funding-split}
use plott.Funding.Accrue.{accrue-within_unit}
use plott.Funding.Claims.{claim_funding-paid}
use plott.Funding.{
  new_position, accrue, settle_funding, stake, request_unstake, unstake, claim_funding,
}

abbrev settle_ctx : SettleFundingCtx
settle_ctx = record {
  authority = 10;
  config = config;
  synthetic_mint = 21;
  authority_synthetic = account_of 10 21;
  token_program = 5;
}

abbrev stake_ctx : StakeCtx
stake_ctx = record {
  owner = 100;
  config = config;
  position = position;
  synthetic_mint = 21;
  owner_synthetic = account_of 100 21;
  token_program = 5;
}

abbrev owner_ctx : UnstakeCtx
owner_ctx = record {
  owner = 100;
  config = config;
  position = position;
  synthetic_mint = 21;
  owner_synthetic = account_of 100 21;
  token_program = 5;
}

settle_runs : is_ok (settle_funding rt tokens clock settle_ctx 1_001) ≡ true
unfolding settle_funding plott.Math.mul_bps_ceil plott.Math.acc_increment
settle_runs = refl

abbrev settle_done : Done Tokens (Unit {0}) FundingSettled
settle_done = value_of (settle_funding rt tokens clock settle_ctx 1_001) settle_runs

settle_ok : settle_funding rt tokens clock settle_ctx 1_001 ≡ ok settle_done
settle_ok = ok-value_of (settle_funding rt tokens clock settle_ctx 1_001) settle_runs

stake_runs : is_ok (stake rt tokens clock stake_ctx 7) ≡ true
unfolding stake plott.State.vaults_ready acc_entitlement
stake_runs = refl

abbrev stake_done : Done Tokens StakePosition Staked
stake_done = value_of (stake rt tokens clock stake_ctx 7) stake_runs

stake_ok : stake rt tokens clock stake_ctx 7 ≡ ok stake_done
stake_ok = ok-value_of (stake rt tokens clock stake_ctx 7) stake_runs

request_runs : is_ok (request_unstake rt tokens clock owner_ctx 3) ≡ true
unfolding request_unstake ◌+ℤ◌ acc_entitlement
request_runs = refl

abbrev request_done : Done Tokens StakePosition UnstakeRequested
request_done = value_of (request_unstake rt tokens clock owner_ctx 3) request_runs

request_ok : request_unstake rt tokens clock owner_ctx 3 ≡ ok request_done
request_ok = ok-value_of (request_unstake rt tokens clock owner_ctx 3) request_runs

unstake_runs : is_ok (unstake rt tokens clock owner_ctx) ≡ true
unfolding unstake
unstake_runs = refl

abbrev unstake_done : Done Tokens StakePosition Unstaked
unstake_done = value_of (unstake rt tokens clock owner_ctx) unstake_runs

unstake_ok : unstake rt tokens clock owner_ctx ≡ ok unstake_done
unstake_ok = ok-value_of (unstake rt tokens clock owner_ctx) unstake_runs

claim_runs : is_ok (claim_funding rt tokens clock owner_ctx) ≡ true
unfolding claim_funding acc_entitlement
claim_runs = refl

abbrev claim_done : Done Tokens StakePosition FundingClaimed
claim_done = value_of (claim_funding rt tokens clock owner_ctx) claim_runs

claim_ok : claim_funding rt tokens clock owner_ctx ≡ ok claim_done
claim_ok = ok-value_of (claim_funding rt tokens clock owner_ctx) claim_runs

accrue_runs : is_ok (accrue position 900_000_000_000) ≡ true
unfolding accrue acc_entitlement
accrue_runs = refl

abbrev accrued : StakePosition
accrued = value_of (accrue position 900_000_000_000) accrue_runs

accrued_ok : accrue position 900_000_000_000 ≡ ok accrued
accrued_ok = ok-value_of (accrue position 900_000_000_000) accrue_runs

debt_taken : acc_entitlement position.amount 500_000_000_000 ≡ ok position.reward_debt
unfolding acc_entitlement
debt_taken = refl

acc_risen : 500_000_000_000 ≤ 900_000_000_000
acc_risen = omega arith

-- A fifth of 1001 to the buffer, rounded up; nine units earned, five of them before.
settle_shares : settle_done.event.to_buffer ≡ 201
unfolding settle_funding plott.Math.mul_bps_ceil plott.Math.acc_increment
settle_shares = refl

claim_pays : claim_done.event.amount ≡ 5
unfolding claim_funding acc_entitlement
claim_pays = refl

-- A unit that is staked at 0.9 is credited a whole unit at 1.0, where it earned a tenth: the debt of 0.9 is
-- rounded down to 0.
fresh_debt : acc_entitlement 1 900_000_000_000 ≡ ok 0
unfolding acc_entitlement
fresh_debt = refl

fresh_credit :
    accrue (record new_position { owner = 100; amount = 1 }) 1_000_000_000_000
    ≡ ok (record new_position { owner = 100; amount = 1; reward_debt = 1; unclaimed = 1 })
unfolding accrue acc_entitlement
fresh_credit = refl

settle_funding-split_example :
    (settle_done.event.to_stakers + settle_done.event.to_buffer ≡ 1_001)
    × (((settle_ctx.config.total_staked ≡ 0) × (settle_done.event.to_buffer ≡ 1_001))
        ⊎ ((0 < settle_ctx.config.total_staked)
            × (1_001 * settle_ctx.config.buffer_share_bps ≤ settle_done.event.to_buffer * 10_000)
            × (settle_done.event.to_buffer * 10_000
                < 1_001 * settle_ctx.config.buffer_share_bps + 10_000)))
    × (settle_ctx.config.acc_funding_per_share ≤ settle_done.config.acc_funding_per_share)
    × ((settle_done.config.acc_funding_per_share - settle_ctx.config.acc_funding_per_share)
          * settle_ctx.config.total_staked
        ≤ settle_done.event.to_stakers * acc_scale)
    × (settle_done.config ≡ record settle_ctx.config {
      acc_funding_per_share = settle_done.config.acc_funding_per_share;
      staker_funding_balance =
          settle_ctx.config.staker_funding_balance + settle_done.event.to_stakers;
      buffer_balance = settle_ctx.config.buffer_balance + settle_done.event.to_buffer;
      last_settle_at = clock.unix_timestamp;
    })
settle_funding-split_example =
    settle_funding-split rt tokens clock settle_ctx 1_001 settle_done settle_ok

claim_funding-paid_example :
    (owner_ctx.owner_synthetic.authority ≡ owner_ctx.position.owner)
    × (claim_done.account.unclaimed ≡ 0)
    × (claim_done.account.amount ≡ owner_ctx.position.amount)
    × (acc_entitlement owner_ctx.position.amount owner_ctx.config.acc_funding_per_share
        ≡ ok claim_done.account.reward_debt)
    × (claim_done.event.amount + owner_ctx.position.reward_debt
        ≡ owner_ctx.position.unclaimed + claim_done.account.reward_debt)
    × (claim_done.account.claimed_total
        ≡ owner_ctx.position.claimed_total + claim_done.event.amount)
    × (rt.balance claim_done.tokens (wallet owner_ctx.owner_synthetic)
        ≡ rt.balance tokens (wallet owner_ctx.owner_synthetic) + claim_done.event.amount)
    × (rt.balance claim_done.tokens (vault funding_vault) + owner_ctx.config.staker_funding_balance
        ≡ rt.balance tokens (vault funding_vault) + claim_done.config.staker_funding_balance)
    × (claim_done.config ≡ record owner_ctx.config {
      staker_funding_balance = claim_done.config.staker_funding_balance;
    })
claim_funding-paid_example =
    claim_funding-paid rt tokens clock owner_ctx claim_done claim_ok (runtime-TokenLaws update)

accrue-within_unit_example :
    let credited = accrued.unclaimed - position.unclaimed in
    let exact = position.amount * (900_000_000_000 - 500_000_000_000) in
    (credited * acc_scale < exact + acc_scale) × (exact < (credited + 1) * acc_scale)
accrue-within_unit_example =
    accrue-within_unit position 500_000_000_000 900_000_000_000 accrued debt_taken acc_risen
      accrued_ok
