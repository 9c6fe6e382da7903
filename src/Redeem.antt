-- ===== src/Redeem.antt =====
-- Two-phase redemption (programs/poyz/src/instructions/redeem.rs): request, confirm and cancel. Each
-- handler first runs the account constraints of its context, then its body. The proofs are in the
-- children beside Accounts.
pub mod Accounts
pub mod Net
pub mod Request
pub mod Confirm
pub mod Settled
pub mod Cancel
pub mod Books
mod Tests
use plott.Common.{
  ℕ, ◌+◌, ◌-◌, min, not, ◌==◌, ltb, leb, if◌then◌else◌, Result, ok, err, ◌>>=◌, ◌>>◌, require,
  ok_or, poyz, token_program_error, redeem_paused, vaults_not_ready, zero_amount, keeper_inactive,
  insufficient_bond, empty_proof_hash, request_expired, request_not_expired,
  settlement_delay_active, hedge_fill_too_small, slippage_exceeded, invalid_bps,
  redeem_exceeds_supply, redeem_exceeds_collateral,
}
use plott.Common.Int.{pos, leb_ℤ, ltb_ℤ}
use plott.Common.Checked.{checked_add, checked_sub, checked_add_ℤ, checked_sub_ℤ}
use plott.Math.{mul_bps_ceil, mul_bps_floor}
use plott.Valuation.{config_price, config_collateral}
use plott.State.{Config, RedeemRequest, vaults_ready}
use plott.State.Keys.{Hash, zero_hash}
use plott.Runtime.{
  Runtime, Clock, Done, wallet, vault, collateral_vault, redeem_escrow, deposit, withdraw,
}
use plott.Events.Requests.{RedeemRequested, RedeemConfirmed, RedeemCancelled}
use Accounts.{
  RedeemRequestCtx, RedeemConfirmCtx, RedeemCancelCtx, redeem_request_accounts,
  redeem_confirm_accounts, redeem_cancel_accounts,
}

-- The amount that is redeemed, less the fee.
pub record Redeemed : Type 0 where
  pub net : ℕ
  pub fee : ℕ

pub net_of_fee : Config → ℕ → Result Redeemed
net_of_fee config synthetic_amount = do
  fee ← mul_bps_ceil synthetic_amount config.redeem_fee_bps
  net_synthetic ← checked_sub synthetic_amount fee
  ok (record { net = net_synthetic; fee = fee })

pub check_unwind : Config → ℕ → ℕ → Result (Unit {0})
check_unwind config synthetic_amount unwound_notional = do
  share ←
      if leb config.max_hedge_slippage_bps 10_000
      then ok (10_000 - config.max_hedge_slippage_bps)
      else err (poyz invalid_bps)
  required_unwind ← mul_bps_floor synthetic_amount share
  require (leb required_unwind unwound_notional) hedge_fill_too_small

module _ {T : Type 0} (rt : Runtime T) (tokens : T) (clock : Clock) where
  unfoldable pub redeem_request :
      RedeemRequestCtx → ℕ → ℕ → ℕ → Result (Done T RedeemRequest RedeemRequested)
  unfolding net_of_fee redeem_request_accounts
  redeem_request ctx nonce synthetic_amount min_collateral_out = do
    redeem_request_accounts ctx
    let config = ctx.config
    require (not config.redeem_paused) redeem_paused
    require (vaults_ready config) vaults_not_ready
    require (ltb 0 synthetic_amount) zero_amount
    require (ltb 0 config.keeper_count) keeper_inactive
    in_flight ← checked_add 64 config.pending_redeem_synthetic synthetic_amount
    require (leb in_flight config.total_synthetic) redeem_exceeds_supply
    price ← config_price rt config ctx.oracle clock.unix_timestamp
    redeemed ← net_of_fee config synthetic_amount
    require (ltb 0 redeemed.net) zero_amount
    quoted_collateral ← config_collateral config price redeemed.net
    require (ltb 0 quoted_collateral) zero_amount
    tokens' ←
        deposit rt tokens ctx.user_synthetic ctx.synthetic_mint redeem_escrow ctx.user
          synthetic_amount
    deadline ← checked_add_ℤ 63 clock.unix_timestamp (pos config.request_ttl_sec)
    ok (record {
      config = record config { pending_redeem_synthetic = in_flight };
      account = record {
        user = ctx.user;
        nonce = nonce;
        synthetic_amount = synthetic_amount;
        quoted_collateral = quoted_collateral;
        min_collateral_out = min_collateral_out;
        quoted_price = price.price;
        created_at = clock.unix_timestamp;
        deadline = deadline;
        quoted_slot = clock.slot;
        quoted_expo = price.expo;
      };
      tokens = tokens';
      event = record {
        config = rt.config_key;
        request = rt.redeem_request_key ctx.user nonce;
        user = ctx.user;
        nonce = nonce;
        synthetic_amount = synthetic_amount;
        quoted_collateral = quoted_collateral;
        quoted_price = price.price;
        quoted_expo = price.expo;
        deadline = deadline;
      };
    })

  -- The venue id is recorded in the event, and is not checked.
  pub redeem_confirm : RedeemConfirmCtx → Hash → ℕ → ℕ → Result (Done T (Unit {0}) RedeemConfirmed)
  unfolding net_of_fee check_unwind redeem_confirm_accounts
  redeem_confirm ctx unwind_proof_hash venue_id unwound_notional = do
    redeem_confirm_accounts ctx
    let config = ctx.config
    let request = ctx.request
    require (not config.redeem_paused) redeem_paused
    require ctx.keeper_account.active keeper_inactive
    require (leb config.min_keeper_bond ctx.keeper_account.bonded) insufficient_bond
    require (not (unwind_proof_hash == zero_hash)) empty_proof_hash
    elapsed ← checked_sub_ℤ 63 clock.unix_timestamp request.created_at
    require (leb_ℤ (pos config.min_settlement_delay_sec) elapsed) settlement_delay_active
    require (leb_ℤ clock.unix_timestamp request.deadline) request_expired
    price ← config_price rt config ctx.oracle clock.unix_timestamp
    redeemed ← net_of_fee config request.synthetic_amount
    collateral_now ← config_collateral config price redeemed.net
    let effective_collateral = min collateral_now request.quoted_collateral
    require (ltb 0 effective_collateral) zero_amount
    require (leb request.min_collateral_out effective_collateral) slippage_exceeded
    require (leb effective_collateral config.total_collateral) redeem_exceeds_collateral
    check_unwind config request.synthetic_amount unwound_notional
    burned ←
        ok_or
          (rt.burn tokens ctx.synthetic_mint (vault redeem_escrow) rt.config_key
            request.synthetic_amount)
          token_program_error
    tokens' ←
        withdraw rt burned collateral_vault ctx.collateral_mint (wallet ctx.user_collateral)
          effective_collateral
    pending ← checked_sub config.pending_redeem_synthetic request.synthetic_amount
    total_synthetic ← checked_sub config.total_synthetic request.synthetic_amount
    total_collateral ← checked_sub config.total_collateral effective_collateral
    -- `saturating_sub`
    let hedged = config.hedged_notional - unwound_notional
    ok (record {
      config = record config {
        pending_redeem_synthetic = pending;
        total_synthetic = total_synthetic;
        total_collateral = total_collateral;
        hedged_notional = hedged;
      };
      account = tt;
      tokens = tokens';
      event = record {
        config = rt.config_key;
        user = request.user;
        keeper = ctx.keeper;
        nonce = request.nonce;
        synthetic_burned = request.synthetic_amount;
        collateral_returned = effective_collateral;
        fee = redeemed.fee;
        unwound_notional = unwound_notional;
        venue_id = venue_id;
        unwind_proof_hash = unwind_proof_hash;
        total_synthetic = total_synthetic;
        total_collateral = total_collateral;
        hedged_notional = hedged;
        timestamp = clock.unix_timestamp;
      };
    })

  unfoldable pub redeem_cancel : RedeemCancelCtx → Result (Done T (Unit {0}) RedeemCancelled)
  unfolding redeem_cancel_accounts
  redeem_cancel ctx = do
    redeem_cancel_accounts ctx
    let config = ctx.config
    let request = ctx.request
    require (ltb_ℤ request.deadline clock.unix_timestamp) request_not_expired
    tokens' ←
        withdraw rt tokens redeem_escrow ctx.synthetic_mint (wallet ctx.user_synthetic)
          request.synthetic_amount
    pending ← checked_sub config.pending_redeem_synthetic request.synthetic_amount
    ok (record {
      config = record config { pending_redeem_synthetic = pending };
      account = tt;
      tokens = tokens';
      event = record {
        config = rt.config_key;
        user = ctx.user;
        nonce = request.nonce;
        synthetic_returned = request.synthetic_amount;
        timestamp = clock.unix_timestamp;
      };
    })
