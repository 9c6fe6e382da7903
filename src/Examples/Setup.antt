-- ===== src/Examples/Setup.antt =====
-- Concrete accounts: a protocol with ten units of collateral at 150, hedged in full, at time 1000.
use plott.Common.{ℕ, ◌+◌, true, false, ◌∷◌, [], ◌++◌}
use plott.Common.Int.{pos, negsuc}
use plott.State.{Config, Keeper, MintRequest, RedeemRequest, StakePosition}
use plott.Pyth.{AccountInfo, VerificationLevel, PriceUpdateV2}
use plott.Oracle.{pyth_receiver_program_id, price_update_v2_discriminator}
use plott.Runtime.{Runtime, Clock, Wallet}
use plott.Admin.Params.{InitializeParams}
use plott.Admin.Accounts.{InitializeCtx}
use plott.Examples.Ledger.{Tokens, runtime}

abbrev pub config : Config
config = record {
  authority = 10;
  pending_authority = 12;
  guardian = 11;
  collateral_mint = 20;
  synthetic_mint = 21;
  bond_mint = 22;
  oracle = 30;
  token_program = 5;
  feed_id = 40;
  last_proof_hash = 50;
  acc_funding_per_share = 900_000_000_000;
  total_collateral = 10_000_000_000;
  pending_collateral = 1_000_000_000;
  total_synthetic = 1_400_000_000;
  pending_redeem_synthetic = 100_000_000;
  hedged_notional = 1_500_000_000;
  total_staked = 1000;
  staker_funding_balance = 500;
  buffer_balance = 10_000;
  bonded_total = 1_000;
  slashed_total = 0;
  min_keeper_bond = 500;
  max_synthetic_supply = 1_000_000_000_000;
  rebalance_count = 3;
  last_proof_slot = 70;
  negative_funding_since = pos 100;
  last_settle_at = pos 0;
  venue_state_at = pos 900;
  venue_capacity_notional = 1_000_000_000_000;
  max_reportable_capacity_notional = 2_000_000_000_000;
  max_price_age_sec = 60;
  request_ttl_sec = 300;
  min_settlement_delay_sec = 100;
  unbond_cooldown_sec = 200;
  buffer_unlock_delay_sec = 500;
  unstake_cooldown_sec = 400;
  max_venue_state_age_sec = 600;
  keeper_count = 1;
  last_net_carry_bps = negsuc 24;
  min_net_carry_bps = negsuc 499;
  max_conf_bps = 100;
  collateral_ratio_bps = 10_000;
  mint_fee_bps = 10;
  redeem_fee_bps = 10;
  delta_band_bps = 200;
  delta_exit_bps = 50;
  delta_hard_bps = 500;
  max_hedge_slippage_bps = 100;
  buffer_share_bps = 2_000;
  buffer_max_draw_bps = 5_000;
  max_supply_vs_capacity_bps = 5_000;
  collateral_decimals = 9;
  synthetic_decimals = 6;
  bond_decimals = 6;
  mint_paused = false;
  redeem_paused = false;
  vault_flags = 15;
  venue_flags = 2;
  last_venue_id = 1;
}

abbrev pub oracle : AccountInfo
oracle = record {
  key = 30;
  owner = pyth_receiver_program_id;
  bytes = price_update_v2_discriminator ++ (1 ∷ []);
}

-- 150.00 at an exponent of -8, ten seconds old.
abbrev pub update : PriceUpdateV2
update = record {
  write_authority = 60;
  verification_level = VerificationLevel.full;
  price_message = record {
    feed_id = 40;
    price = pos 15_000_000_000;
    conf = 15_000_000;
    exponent = negsuc 7;
    publish_time = pos 990;
    prev_publish_time = pos 980;
    ema_price = pos 15_000_000_000;
    ema_conf = 15_000_000;
  };
  posted_slot = 79;
}

abbrev pub rt : Runtime Tokens
rt = runtime update

abbrev pub clock : Clock
clock = record { slot = 80; unix_timestamp = pos 1_000 }

abbrev pub tokens : Tokens
tokens = record { balances = λ a. 100_000_000_000; supplies = λ m. 1_400_000_000 }

-- The account of `owner` for `mint`.
abbrev pub account_of : ℕ → ℕ → Wallet
account_of owner mint = record { address = owner + mint; mint = mint; authority = owner }

abbrev pub keeper : Keeper
keeper = record {
  keeper = 200;
  bonded = 1_000;
  slashed = 0;
  proofs_committed = 3;
  registered_at = pos 100;
  last_proof_at = pos 700;
  last_proof_slot = 70;
  last_bond_at = pos 100;
  active = true;
}

-- One unit of collateral, quoted at 149.00.
abbrev pub request : MintRequest
request = record {
  user = 100;
  nonce = 7;
  collateral_amount = 1_000_000_000;
  quoted_notional = 149_000_000;
  min_synthetic_out = 140_000_000;
  quoted_price = pos 14_900_000_000;
  created_at = pos 800;
  deadline = pos 1_100;
  quoted_slot = 60;
  quoted_expo = negsuc 7;
}

abbrev pub redemption : RedeemRequest
redemption = record {
  user = 100;
  nonce = 8;
  synthetic_amount = 100_000_000;
  quoted_collateral = 670_000_000;
  min_collateral_out = 660_000_000;
  quoted_price = pos 14_900_000_000;
  created_at = pos 800;
  deadline = pos 1_100;
  quoted_slot = 60;
  quoted_expo = negsuc 7;
}

-- Ten units staked at an accumulator of 0.5, with four more that wait.
abbrev pub position : StakePosition
position = record {
  owner = 100;
  reward_debt = 5;
  amount = 10;
  unclaimed = 1;
  claimed_total = 2;
  last_update = pos 500;
  cooldown_end = pos 950;
  pending_unstake = 4;
}

abbrev pub launch_params : InitializeParams
launch_params = record {
  feed_id = config.feed_id;
  guardian = config.guardian;
  max_price_age_sec = config.max_price_age_sec;
  max_conf_bps = config.max_conf_bps;
  collateral_ratio_bps = config.collateral_ratio_bps;
  mint_fee_bps = config.mint_fee_bps;
  redeem_fee_bps = config.redeem_fee_bps;
  delta_band_bps = config.delta_band_bps;
  delta_exit_bps = config.delta_exit_bps;
  delta_hard_bps = config.delta_hard_bps;
  max_hedge_slippage_bps = config.max_hedge_slippage_bps;
  buffer_share_bps = config.buffer_share_bps;
  buffer_max_draw_bps = config.buffer_max_draw_bps;
  max_supply_vs_capacity_bps = config.max_supply_vs_capacity_bps;
  min_keeper_bond = config.min_keeper_bond;
  max_synthetic_supply = config.max_synthetic_supply;
  request_ttl_sec = config.request_ttl_sec;
  min_settlement_delay_sec = config.min_settlement_delay_sec;
  unbond_cooldown_sec = config.unbond_cooldown_sec;
  buffer_unlock_delay_sec = config.buffer_unlock_delay_sec;
  unstake_cooldown_sec = config.unstake_cooldown_sec;
  max_venue_state_age_sec = config.max_venue_state_age_sec;
  min_net_carry_bps = config.min_net_carry_bps;
  max_reportable_capacity_notional = config.max_reportable_capacity_notional;
  venue_flags = config.venue_flags;
}

abbrev pub launch_ctx : InitializeCtx
launch_ctx = record {
  authority = 10;
  collateral_mint = 20;
  synthetic_mint = 21;
  bond_mint = 22;
  oracle = oracle;
  token_program = 5;
}
