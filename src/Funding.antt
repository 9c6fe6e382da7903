-- ===== src/Funding.antt =====
-- Funding settlement, staking and claims (programs/poyz/src/instructions/funding.rs).
pub mod Accounts
pub mod Settle
pub mod Paid
pub mod Accrue
pub mod Stakes
pub mod Claims
pub mod Books
mod Tests
use plott.Common.{
  ℕ, ◌+◌, ◌-◌, not, ◌==◌, ltb, leb, if◌then◌else◌, Result, ok, ◌>>=◌, ◌>>◌, require, math_overflow,
  mint_paused, vaults_not_ready, zero_amount, unauthorized, insufficient_stake, no_pending_unstake,
  unstake_cooldown_active, nothing_to_claim,
}
use plott.Common.Int.{pos, leb_ℤ}
use plott.Common.Checked.{try_from, checked_add, checked_sub, checked_add_ℤ}
use plott.Math.{acc_entitlement, acc_increment, mul_bps_ceil}
use plott.State.{Config, StakePosition, vaults_ready}
use plott.State.Keys.{Pubkey, default_key}
use plott.Runtime.{
  Runtime, Clock, Done, wallet, funding_vault, buffer_vault, stake_vault, deposit, withdraw,
}
use plott.Events.Funding.{FundingSettled, Staked, UnstakeRequested, Unstaked, FundingClaimed}
use Accounts.{
  SettleFundingCtx, StakeCtx, UnstakeCtx, ClaimFundingCtx, settle_funding_accounts, stake_accounts,
  unstake_accounts,
}

-- A zeroed account, as `init_if_needed` leaves it.
abbrev pub new_position : StakePosition
new_position = record {
  owner = default_key;
  reward_debt = 0;
  amount = 0;
  unclaimed = 0;
  claimed_total = 0;
  last_update = pos 0;
  cooldown_end = pos 0;
  pending_unstake = 0;
}

-- What is pending is added to `unclaimed`, if it is not 0.
pub credit : ℕ → ℕ → Result ℕ
credit unclaimed pending =
    if ltb 0 pending
    then (do pending_u64 ← try_from 64 pending; checked_add 64 unclaimed pending_u64)
    else ok unclaimed

pub accrue : StakePosition → ℕ → Result StakePosition
unfolding credit
accrue position acc_funding_per_share = do
  entitlement ← acc_entitlement position.amount acc_funding_per_share
  pending ← checked_sub entitlement position.reward_debt
  unclaimed ← credit position.unclaimed pending
  ok (record position { reward_debt = entitlement; unclaimed = unclaimed })

-- The part of a settlement that goes to the buffer.
pub buffer_part : Config → ℕ → Result ℕ
buffer_part config amount =
    if config.total_staked == 0 then ok amount else mul_bps_ceil amount config.buffer_share_bps

pub settle_stakers : Config → ℕ → Result Config
settle_stakers config to_stakers =
    if ltb 0 to_stakers
    then (do
      increment ← acc_increment to_stakers config.total_staked
      acc ← checked_add 128 config.acc_funding_per_share increment
      balance ← checked_add 64 config.staker_funding_balance to_stakers
      ok (record config { acc_funding_per_share = acc; staker_funding_balance = balance }))
    else ok config

pub settle_buffer : Config → ℕ → Result Config
settle_buffer config to_buffer =
    if ltb 0 to_buffer
    then (do
      balance ← checked_add 64 config.buffer_balance to_buffer
      ok (record config { buffer_balance = balance }))
    else ok config

-- A first-time stake takes the account over; any other must be the owner's.
pub claim_position : StakePosition → Pubkey → Result StakePosition
claim_position position owner =
    if position.owner == default_key
    then ok (record position { owner = owner })
    else (require (position.owner == owner) unauthorized >> ok position)

module _ {T : Type 0} (rt : Runtime T) (tokens : T) (clock : Clock) where
  pub settle_funding : SettleFundingCtx → ℕ → Result (Done T (Unit {0}) FundingSettled)
  unfolding settle_funding_accounts buffer_part settle_stakers settle_buffer
  settle_funding ctx amount = do
    settle_funding_accounts ctx
    to_buffer ← buffer_part ctx.config amount
    to_stakers ← checked_sub amount to_buffer
    funded ←
        if ltb 0 to_buffer
        then deposit rt tokens ctx.authority_synthetic ctx.synthetic_mint buffer_vault ctx.authority
            to_buffer
        else ok tokens
    tokens' ←
        if ltb 0 to_stakers
        then deposit rt funded ctx.authority_synthetic ctx.synthetic_mint funding_vault
            ctx.authority to_stakers
        else ok funded
    paid ← settle_stakers ctx.config to_stakers
    buffered ← settle_buffer paid to_buffer
    let config = record buffered { last_settle_at = clock.unix_timestamp }
    ok (record {
      config = config;
      account = tt;
      tokens = tokens';
      event = record {
        config = rt.config_key;
        authority = ctx.authority;
        amount = amount;
        to_stakers = to_stakers;
        to_buffer = to_buffer;
        net_carry_bps = config.last_net_carry_bps;
        acc_funding_per_share = config.acc_funding_per_share;
        total_staked = ctx.config.total_staked;
        negative_funding_since = config.negative_funding_since;
        timestamp = clock.unix_timestamp;
      };
    })

  unfoldable pub stake : StakeCtx → ℕ → Result (Done T StakePosition Staked)
  unfolding stake_accounts claim_position accrue
  stake ctx amount = do
    stake_accounts ctx
    let acc = ctx.config.acc_funding_per_share
    require (not ctx.config.mint_paused) mint_paused
    require (vaults_ready ctx.config) vaults_not_ready
    require (ltb 0 amount) zero_amount
    owned ← claim_position ctx.position ctx.owner
    accrued ← accrue owned acc
    tokens' ← deposit rt tokens ctx.owner_synthetic ctx.synthetic_mint stake_vault ctx.owner amount
    staked ← checked_add 64 accrued.amount amount
    debt ← acc_entitlement staked acc
    total ← checked_add 64 ctx.config.total_staked amount
    ok (record {
      config = record ctx.config { total_staked = total };
      account = record accrued {
        amount = staked;
        reward_debt = debt;
        last_update = clock.unix_timestamp;
      };
      tokens = tokens';
      event = record {
        config = rt.config_key;
        owner = ctx.owner;
        amount = amount;
        position_amount = staked;
        total_staked = total;
      };
    })

  unfoldable pub request_unstake : UnstakeCtx → ℕ → Result (Done T StakePosition UnstakeRequested)
  unfolding unstake_accounts accrue
  request_unstake ctx amount = do
    unstake_accounts ctx
    require (ltb 0 amount) zero_amount
    require (leb amount ctx.position.amount) insufficient_stake
    let acc = ctx.config.acc_funding_per_share
    cooldown_end ← checked_add_ℤ 63 clock.unix_timestamp (pos ctx.config.unstake_cooldown_sec)
    accrued ← accrue ctx.position acc
    left ← checked_sub accrued.amount amount
    pending ← checked_add 64 accrued.pending_unstake amount
    debt ← acc_entitlement left acc
    total ← checked_sub ctx.config.total_staked amount
    ok (record {
      config = record ctx.config { total_staked = total };
      account = record accrued {
        amount = left;
        pending_unstake = pending;
        cooldown_end = cooldown_end;
        reward_debt = debt;
        last_update = clock.unix_timestamp;
      };
      tokens = tokens;
      event = record {
        config = rt.config_key;
        owner = ctx.owner;
        amount = amount;
        position_amount = left;
        pending_unstake = pending;
        cooldown_end = cooldown_end;
        total_staked = total;
      };
    })

  unfoldable pub unstake : UnstakeCtx → Result (Done T StakePosition Unstaked)
  unfolding unstake_accounts
  unstake ctx = do
    unstake_accounts ctx
    let amount = ctx.position.pending_unstake
    require (ltb 0 amount) no_pending_unstake
    require (leb_ℤ ctx.position.cooldown_end clock.unix_timestamp) unstake_cooldown_active
    tokens' ← withdraw rt tokens stake_vault ctx.synthetic_mint (wallet ctx.owner_synthetic) amount
    ok (record {
      config = ctx.config;
      account = record ctx.position {
        pending_unstake = 0;
        cooldown_end = pos 0;
        last_update = clock.unix_timestamp;
      };
      tokens = tokens';
      event = record {
        config = rt.config_key;
        owner = ctx.owner;
        amount = amount;
        position_amount = ctx.position.amount;
        total_staked = ctx.config.total_staked;
      };
    })

  pub claim_funding : ClaimFundingCtx → Result (Done T StakePosition FundingClaimed)
  unfolding unstake_accounts accrue
  claim_funding ctx = do
    unstake_accounts ctx
    accrued ← accrue ctx.position ctx.config.acc_funding_per_share
    let amount = accrued.unclaimed
    require (ltb 0 amount) nothing_to_claim
    require (leb amount ctx.config.staker_funding_balance) math_overflow
    tokens' ←
        withdraw rt tokens funding_vault ctx.synthetic_mint (wallet ctx.owner_synthetic) amount
    claimed ← checked_add 64 accrued.claimed_total amount
    balance ← checked_sub ctx.config.staker_funding_balance amount
    ok (record {
      config = record ctx.config { staker_funding_balance = balance };
      account = record accrued { unclaimed = 0; claimed_total = claimed };
      tokens = tokens';
      event = record {
        config = rt.config_key;
        owner = ctx.owner;
        amount = amount;
        claimed_total = claimed;
        staker_funding_balance = balance;
      };
    })
