-- ===== src/Mint.antt =====
-- Two-phase minting (programs/poyz/src/instructions/mint.rs): request, confirm and cancel. Each handler
-- first runs the account constraints of its context, then its body. Which request account a call
-- finds, creates or closes is decided where the handlers are called. The proofs are in the children
-- beside Accounts and Gates.
pub mod Accounts
pub mod Gates
pub mod Issuance
pub mod Open
pub mod Confirm
pub mod Request
pub mod Cancel
pub mod Supply
pub mod Books
mod Tests
use plott.Common.{
  ℕ, ◌+◌, ◌-◌, min, not, ◌==◌, ltb, leb, if◌then◌else◌, Result, ok, ◌>>=◌, ◌>>◌, require, ok_or,
  token_program_error, mint_paused, vaults_not_ready, zero_amount, keeper_inactive,
  insufficient_bond, empty_proof_hash, request_expired, request_not_expired, slippage_exceeded,
  supply_cap_exceeded, venue_capacity_exceeded, venue_not_enabled,
}
use plott.Common.Int.{pos, leb_ℤ, ltb_ℤ}
use plott.Common.Checked.{checked_add, checked_sub, checked_add_ℤ}
use plott.State.{MintRequest, vaults_ready, venue_enabled}
use plott.State.Keys.{Hash, zero_hash}
use plott.Runtime.{deposit, withdraw, Runtime, Clock, Done, wallet, collateral_vault}
use plott.Valuation.{config_price, config_notional}
use plott.Events.Requests.{MintRequested, MintConfirmed, MintCancelled}
use Accounts.{
  MintRequestCtx, MintConfirmCtx, MintCancelCtx, mint_request_accounts, mint_confirm_accounts,
  mint_cancel_accounts,
}
use Gates.{check_issuance_gates, supply_ceiling, check_fill, issue_amount}

module _ {T : Type 0} (rt : Runtime T) (tokens : T) (clock : Clock) where
  unfoldable pub mint_request :
      MintRequestCtx → ℕ → ℕ → ℕ → Result (Done T MintRequest MintRequested)
  unfolding mint_request_accounts
  mint_request ctx nonce collateral_amount min_synthetic_out = do
    mint_request_accounts ctx
    let config = ctx.config
    require (not config.mint_paused) mint_paused
    require (vaults_ready config) vaults_not_ready
    require (ltb 0 collateral_amount) zero_amount
    require (ltb 0 config.keeper_count) keeper_inactive
    price ← config_price rt config ctx.oracle clock.unix_timestamp
    check_issuance_gates config clock.unix_timestamp price
    ceiling ← supply_ceiling config
    require (ltb config.total_synthetic ceiling) venue_capacity_exceeded
    quoted_notional ← config_notional config price collateral_amount
    require (ltb 0 quoted_notional) zero_amount
    tokens' ←
        deposit rt tokens ctx.user_collateral ctx.collateral_mint collateral_vault ctx.user
          collateral_amount
    deadline ← checked_add_ℤ 63 clock.unix_timestamp (pos config.request_ttl_sec)
    pending ← checked_add 64 config.pending_collateral collateral_amount
    ok (record {
      config = record config { pending_collateral = pending };
      account = record {
        user = ctx.user;
        nonce = nonce;
        collateral_amount = collateral_amount;
        quoted_notional = quoted_notional;
        min_synthetic_out = min_synthetic_out;
        quoted_price = price.price;
        created_at = clock.unix_timestamp;
        deadline = deadline;
        quoted_slot = clock.slot;
        quoted_expo = price.expo;
      };
      tokens = tokens';
      event = record {
        config = rt.config_key;
        request = rt.mint_request_key ctx.user nonce;
        user = ctx.user;
        nonce = nonce;
        collateral_amount = collateral_amount;
        quoted_notional = quoted_notional;
        quoted_price = price.price;
        quoted_expo = price.expo;
        deadline = deadline;
      };
    })

  unfoldable pub mint_confirm :
      MintConfirmCtx → Hash → ℕ → ℕ → Result (Done T (Unit {0}) MintConfirmed)
  unfolding mint_confirm_accounts issue_amount check_fill
  mint_confirm ctx hedge_proof_hash venue_id filled_notional = do
    mint_confirm_accounts ctx
    let config = ctx.config
    let request = ctx.request
    require (not config.mint_paused) mint_paused
    require ctx.keeper_account.active keeper_inactive
    require (leb config.min_keeper_bond ctx.keeper_account.bonded) insufficient_bond
    require (not (hedge_proof_hash == zero_hash)) empty_proof_hash
    require (venue_enabled config venue_id) venue_not_enabled
    require (leb_ℤ clock.unix_timestamp request.deadline) request_expired
    price ← config_price rt config ctx.oracle clock.unix_timestamp
    notional_now ← config_notional config price request.collateral_amount
    let effective_notional = min notional_now request.quoted_notional
    require (ltb 0 effective_notional) zero_amount
    check_fill config effective_notional filled_notional
    issue ← issue_amount config effective_notional
    require (leb request.min_synthetic_out issue.net) slippage_exceeded
    new_supply ← checked_add 64 config.total_synthetic issue.net
    require (leb new_supply config.max_synthetic_supply) supply_cap_exceeded
    ceiling ← supply_ceiling config
    require (leb new_supply ceiling) venue_capacity_exceeded
    tokens' ←
        ok_or
          (rt.mint_to tokens ctx.synthetic_mint (wallet ctx.user_synthetic) rt.config_key issue.net)
          token_program_error
    pending ← checked_sub config.pending_collateral request.collateral_amount
    total_collateral ← checked_add 64 config.total_collateral request.collateral_amount
    hedged ← checked_add 64 config.hedged_notional filled_notional
    ok (record {
      config = record config {
        pending_collateral = pending;
        total_collateral = total_collateral;
        total_synthetic = new_supply;
        hedged_notional = hedged;
      };
      account = tt;
      tokens = tokens';
      event = record {
        config = rt.config_key;
        user = request.user;
        keeper = ctx.keeper;
        nonce = request.nonce;
        collateral_amount = request.collateral_amount;
        effective_notional = effective_notional;
        synthetic_minted = issue.net;
        fee = issue.fee;
        filled_notional = filled_notional;
        venue_id = venue_id;
        hedge_proof_hash = hedge_proof_hash;
        total_synthetic = new_supply;
        total_collateral = total_collateral;
        hedged_notional = hedged;
        timestamp = clock.unix_timestamp;
      };
    })

  unfoldable pub mint_cancel : MintCancelCtx → Result (Done T (Unit {0}) MintCancelled)
  unfolding mint_cancel_accounts
  mint_cancel ctx = do
    mint_cancel_accounts ctx
    let config = ctx.config
    let request = ctx.request
    require (ltb_ℤ request.deadline clock.unix_timestamp) request_not_expired
    tokens' ←
        withdraw rt tokens collateral_vault ctx.collateral_mint (wallet ctx.user_collateral)
          request.collateral_amount
    pending ← checked_sub config.pending_collateral request.collateral_amount
    ok (record {
      config = record config { pending_collateral = pending };
      account = tt;
      tokens = tokens';
      event = record {
        config = rt.config_key;
        user = ctx.user;
        nonce = request.nonce;
        collateral_returned = request.collateral_amount;
        timestamp = clock.unix_timestamp;
      };
    })
