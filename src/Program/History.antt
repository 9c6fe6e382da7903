-- ===== src/Program/History.antt =====
-- A history of the whole program on the accounts of Examples/Setup: `initialize`, the opening, trading, and the
-- transactions that could come next.
use plott.Common.{
  arith, ltb, ◌^◌, ◌≤◌, ◌<◌, ◌+◌, ◌-◌, ◌↔◌, ℕ, ◌≡◌, refl, Bool, true, false, Option, none, some, ok,
  List, [], ◌∷◌,
}
use plott.Common.Int.{pos, ◌<ℤ◌, ◌≤ℤ◌}
use plott.State.{MintRequest, RedeemRequest, StakePosition, vaults_ready}
use plott.Examples.{is_ok, value_of, ok-value_of}
use plott.Examples.Setup.{
  config, oracle, rt, clock, tokens, account_of, keeper, request, position, launch_params,
  launch_ctx,
}
use plott.Examples.Ledger.{Tokens}
use plott.Runtime.{Clock, vault, wallet, collateral_vault, redeem_escrow, stake_vault}
use plott.Mint.Accounts.{MintConfirmCtx}
use plott.Program.World.{World}
use plott.Program.Administer.{Administration, administer}
use plott.Program.Execute.{Instruction, execute, launch}
use plott.Program.Store.{find}
use plott.Program.World.{is_mint_request, is_redeem_request, is_position}
use plott.Program.Reach.{Reachable, launched}
use plott.Program.Exit.Redeem.{redeem_cancel_ctx}
use plott.Program.Run.{Transaction, run, run-Reachable}

abbrev pub is_some : {A : Type 0} → Option A → Bool
is_some none = false
is_some (some a) = true

abbrev pub content_of : {A : Type 0} → (o : Option A) → is_some o ≡ true → A
content_of (some a) h = a
content_of none h = cc

pub some-content_of :
    {A : Type 0} → (o : Option A) (h : is_some o ≡ true) → o ≡ some (content_of o h)
some-content_of (some a) h = refl
some-content_of none h = cc

pub launch_runs : is_ok (launch rt clock launch_ctx launch_params tokens) ≡ true
unfolding launch plott.Admin.Initialize.initialize plott.Oracle.validate_oracle_account
    plott.Oracle.read_update plott.Oracle.split_discriminator
launch_runs = refl

abbrev pub start : World Tokens
start = value_of (launch rt clock launch_ctx launch_params tokens) launch_runs

pub start_ok : launch rt clock launch_ctx launch_params tokens ≡ ok start
start_ok = ok-value_of (launch rt clock launch_ctx launch_params tokens) launch_runs

pub start-Reachable : Reachable rt start
start-Reachable = launched clock launch_ctx launch_params tokens start_ok

abbrev pub at : ℕ → Instruction → Transaction
at second instruction = record {
  clock = record { slot = second; unix_timestamp = pos second };
  instruction = instruction;
}

-- The authority makes the vaults, a keeper registers, the venue is reported and both sides are opened.
abbrev pub opening : List Transaction
opening =
    at 1000 (
      Instruction.administration (
        Administration.init_collateral_vault
          (record { authority = 10; config = config; mint = 20; token_program = 5 })))
    ∷ at 1000 (
        Instruction.administration (
          Administration.init_bond_vaults
            (record { authority = 10; config = config; mint = 22; token_program = 5 })))
    ∷ at 1000 (
        Instruction.administration (
          Administration.init_funding_vaults
            (record { authority = 10; config = config; mint = 21; token_program = 5 })))
    ∷ at 1000 (
        Instruction.administration (
          Administration.init_stake_vaults
            (record { authority = 10; config = config; mint = 21; token_program = 5 })))
    ∷ at 1000 (
        Instruction.administration
          (Administration.set_paused (record { signer = 10; config = config }) false false))
    ∷ at 1000 (
        Instruction.administration (
          Administration.report_venue_state
            (record { signer = 10; config = config; keeper_account = none }) 1 (pos 40)
            1_000_000_000_000))
    ∷ at 1000 (
        Instruction.keeper_register
          (record {
            keeper = 200;
            config = config;
            bond_mint = 22;
            keeper_bond_source = account_of 200 22;
            token_program = 5;
          })
          1_000)
    ∷ []

abbrev pub opened : World Tokens
opened = run rt opening start

-- Two mint requests, of which the first is confirmed, a redeem request, a stake of which a part is to leave, and
-- a proof.
abbrev pub trading : List Transaction
trading =
    at 1000 (
      Instruction.mint_request
        (record {
          user = 100;
          config = config;
          collateral_mint = 20;
          user_collateral = account_of 100 20;
          oracle = oracle;
          token_program = 5;
        })
        7 1_000_000 1)
    ∷ at 1000 (
        Instruction.mint_request
          (record {
            user = 100;
            config = config;
            collateral_mint = 20;
            user_collateral = account_of 100 20;
            oracle = oracle;
            token_program = 5;
          })
          8 2_000_000 1)
    ∷ at 1000 (
        Instruction.mint_confirm
          (record {
            keeper = 200;
            config = config;
            keeper_account = keeper;
            request = request;
            user = 100;
            synthetic_mint = 21;
            user_synthetic = account_of 100 21;
            oracle = oracle;
            token_program = 5;
          })
          7 99 1 150_000_000)
    ∷ at 1000 (
        Instruction.redeem_request
          (record {
            user = 100;
            config = config;
            synthetic_mint = 21;
            user_synthetic = account_of 100 21;
            oracle = oracle;
            token_program = 5;
          })
          9 100_000_000 1)
    ∷ at 1000 (
        Instruction.stake
          (record {
            owner = 100;
            config = config;
            position = position;
            synthetic_mint = 21;
            owner_synthetic = account_of 100 21;
            token_program = 5;
          })
          10)
    ∷ at 1000 (
        Instruction.request_unstake
          (record {
            owner = 100;
            config = config;
            position = position;
            synthetic_mint = 21;
            owner_synthetic = account_of 100 21;
            token_program = 5;
          })
          4)
    ∷ at 1000 (
        Instruction.commit_rebalance_proof
          (record { keeper = 200; config = config; keeper_account = keeper; oracle = oracle })
          (record {
            sequence = 0;
            venues_hash = 9;
            venue_id = 1;
            delta_bps_before = pos 0;
            delta_bps_after = pos 0;
            hedged_notional = 150_000_000;
            collateral_notional = 150_000_000;
          }))
    ∷ []

abbrev pub world : World Tokens
world = run rt trading opened

pub world-Reachable : Reachable rt world
world-Reachable = run-Reachable rt trading opened (run-Reachable rt opening start start-Reachable)

-- The next transactions: a confirmation of the second request, and cancellations after the deadlines.
abbrev pub confirm_ctx : MintConfirmCtx
confirm_ctx = record {
  keeper = 200;
  config = config;
  keeper_account = keeper;
  request = request;
  user = 100;
  synthetic_mint = 21;
  user_synthetic = account_of 100 21;
  oracle = oracle;
  token_program = 5;
}

abbrev pub confirm : Instruction
confirm = Instruction.mint_confirm confirm_ctx 8 99 1 300_000_000

-- Before the protocol is opened, the authority makes a vault.
abbrev pub first : Instruction
first = Instruction.administration (
    Administration.init_collateral_vault
      (record { authority = 10; config = config; mint = 20; token_program = 5 }))

-- What the history leaves: the counts, the request and the position that are open, and that the next transactions succeed.
pub history_runs :
    ((world.config.pending_collateral ≡ 2_000_000)
      × (world.config.pending_redeem_synthetic ≡ 100_000_000)
      × (world.config.total_staked ≡ 6)
      × (world.config.rebalance_count ≡ 1)
      × (world.config.bonded_total ≡ 1_000))
    × ((20 ≡ world.config.collateral_mint) × (21 ≡ world.config.synthetic_mint))
    × (is_ok (execute rt clock confirm world) ≡ true)
    × (is_some (find (is_mint_request 100 8) world.mint_requests) ≡ true)
    × (is_some (find (is_redeem_request 100 9) world.redeem_requests) ≡ true)
    × (is_some (find (is_position 100) world.positions) ≡ true)
    × (is_ok (execute rt clock first start) ≡ true)
    × ((start.config.mint_paused ≡ true) × (start.config.redeem_paused ≡ true))
unfolding run plott.Program.Run.apply execute administer launch plott.Admin.Initialize.initialize
    plott.Oracle.validate_oracle_account plott.Oracle.read_update plott.Oracle.split_discriminator
    plott.Program.Store.find plott.Admin.report_venue_state plott.Admin.set_paused
    plott.Vaults.init_stake_vaults plott.Vaults.init_funding_vaults plott.Vaults.init_bond_vaults
    plott.Vaults.init_collateral_vault vaults_ready plott.State.venue_enabled
    plott.Keepers.keeper_register plott.Program.Store.remove plott.Program.Store.store
    plott.Mint.mint_request plott.Mint.mint_confirm plott.Redeem.redeem_request plott.Funding.stake
    plott.Funding.request_unstake plott.Proof.commit_rebalance_proof plott.Oracle.load_price
    plott.Common.Int.◌-ℤ◌ plott.Math.confidence_bps plott.Math.collateral_to_notional
    plott.Math.decimal_shift plott.Common.Int.◌+ℤ◌ plott.Math.scale_down plott.Math.mul_bps_floor
    plott.Math.mul_bps_ceil plott.Math.div_bps_floor plott.Mint.Gates.supply_ceiling
    plott.Mint.Gates.check_issuance_gates plott.Math.delta_bps plott.Common.Int.scale_ℤ
    plott.Common.Int.tdiv plott.Math.acc_entitlement plott.Math.notional_to_collateral
    plott.Math.scale_divided
history_runs =
    ((refl, refl, refl, refl, refl), (refl, refl), refl, refl, refl, refl, refl, (refl, refl))

abbrev pub confirmed : World Tokens
confirmed = value_of (execute rt clock confirm world) history_runs.2

pub confirmed_ok : execute rt clock confirm world ≡ ok confirmed
confirmed_ok = ok-value_of (execute rt clock confirm world) history_runs.2

abbrev pub late : Clock
late = record { slot = 2000; unix_timestamp = pos 2000 }

abbrev pub mint_open : MintRequest
mint_open = content_of (find (is_mint_request 100 8) world.mint_requests) history_runs.3

abbrev pub redeem_open : RedeemRequest
redeem_open = content_of (find (is_redeem_request 100 9) world.redeem_requests) history_runs.4

abbrev pub leaving : StakePosition
leaving = content_of (find (is_position 100) world.positions) history_runs.5

abbrev pub returned : Instruction
returned = Instruction.redeem_cancel (redeem_cancel_ctx world redeem_open (account_of 100 21)) 9

pub open_requests :
    ((mint_open.deadline ≡ pos 1_300)
      × (redeem_open.deadline ≡ pos 1_300)
      × (leaving.cooldown_end ≡ pos 1_400)
      × (leaving.pending_unstake ≡ 4))
    × (is_ok (execute rt late returned world) ≡ true)
unfolding run plott.Program.Run.apply execute administer launch plott.Admin.Initialize.initialize
    plott.Oracle.validate_oracle_account plott.Oracle.read_update plott.Oracle.split_discriminator
    plott.Program.Store.find plott.Admin.report_venue_state plott.Admin.set_paused
    plott.Vaults.init_stake_vaults plott.Vaults.init_funding_vaults plott.Vaults.init_bond_vaults
    plott.Vaults.init_collateral_vault vaults_ready plott.State.venue_enabled
    plott.Keepers.keeper_register plott.Program.Store.remove plott.Program.Store.store
    plott.Mint.mint_request plott.Mint.mint_confirm plott.Redeem.redeem_request plott.Funding.stake
    plott.Funding.request_unstake plott.Proof.commit_rebalance_proof plott.Oracle.load_price
    plott.Common.Int.◌-ℤ◌ plott.Math.confidence_bps plott.Math.collateral_to_notional
    plott.Math.decimal_shift plott.Common.Int.◌+ℤ◌ plott.Math.scale_down plott.Math.mul_bps_floor
    plott.Math.mul_bps_ceil plott.Math.div_bps_floor plott.Mint.Gates.supply_ceiling
    plott.Mint.Gates.check_issuance_gates plott.Math.delta_bps plott.Common.Int.scale_ℤ
    plott.Common.Int.tdiv plott.Math.acc_entitlement plott.Math.notional_to_collateral
    plott.Math.scale_divided plott.Redeem.redeem_cancel
open_requests = ((refl, refl, refl, refl), refl)

-- The cancellation of the redeem request after the mint request has been confirmed.
pub after_both_runs : is_ok (execute rt late returned confirmed) ≡ true
unfolding run plott.Program.Run.apply execute administer launch plott.Admin.Initialize.initialize
    plott.Oracle.validate_oracle_account plott.Oracle.read_update plott.Oracle.split_discriminator
    plott.Program.Store.find plott.Admin.report_venue_state plott.Admin.set_paused
    plott.Vaults.init_stake_vaults plott.Vaults.init_funding_vaults plott.Vaults.init_bond_vaults
    plott.Vaults.init_collateral_vault vaults_ready plott.State.venue_enabled
    plott.Keepers.keeper_register plott.Program.Store.remove plott.Program.Store.store
    plott.Mint.mint_request plott.Mint.mint_confirm plott.Redeem.redeem_request plott.Funding.stake
    plott.Funding.request_unstake plott.Proof.commit_rebalance_proof plott.Oracle.load_price
    plott.Common.Int.◌-ℤ◌ plott.Math.confidence_bps plott.Math.collateral_to_notional
    plott.Math.decimal_shift plott.Common.Int.◌+ℤ◌ plott.Math.scale_down plott.Math.mul_bps_floor
    plott.Math.mul_bps_ceil plott.Math.div_bps_floor plott.Mint.Gates.supply_ceiling
    plott.Mint.Gates.check_issuance_gates plott.Math.delta_bps plott.Common.Int.scale_ℤ
    plott.Common.Int.tdiv plott.Math.acc_entitlement plott.Math.notional_to_collateral
    plott.Math.scale_divided plott.Redeem.redeem_cancel
after_both_runs = refl

abbrev pub after_both : World Tokens
after_both = value_of (execute rt late returned confirmed) after_both_runs

pub after_both_ok : execute rt late returned confirmed ≡ ok after_both
after_both_ok = ok-value_of (execute rt late returned confirmed) after_both_runs

-- The vaults and the accounts of those who leave are open, and the accounts have room.
exits_computed :
    (rt.is_open world.tokens (vault collateral_vault) world.config.collateral_mint ≡ true)
    × (rt.is_open world.tokens (wallet (account_of 100 20)) world.config.collateral_mint ≡ true)
    × (ltb
          (rt.balance world.tokens (wallet (account_of 100 20)) + mint_open.collateral_amount)
          (2 ^ 64)
        ≡ true)
    × (rt.is_open world.tokens (vault redeem_escrow) world.config.synthetic_mint ≡ true)
    × (rt.is_open world.tokens (vault stake_vault) world.config.synthetic_mint ≡ true)
    × (rt.is_open world.tokens (wallet (account_of 100 21)) world.config.synthetic_mint ≡ true)
    × (ltb
          (rt.balance world.tokens (wallet (account_of 100 21)) + redeem_open.synthetic_amount)
          (2 ^ 64)
        ≡ true)
    × (ltb (rt.balance world.tokens (wallet (account_of 100 21)) + leaving.pending_unstake) (2 ^ 64)
        ≡ true)
unfolding run plott.Program.Run.apply execute administer launch plott.Admin.Initialize.initialize
    plott.Oracle.validate_oracle_account plott.Oracle.read_update plott.Oracle.split_discriminator
    plott.Program.Store.find plott.Admin.report_venue_state plott.Admin.set_paused
    plott.Vaults.init_stake_vaults plott.Vaults.init_funding_vaults plott.Vaults.init_bond_vaults
    plott.Vaults.init_collateral_vault vaults_ready plott.State.venue_enabled
    plott.Keepers.keeper_register plott.Program.Store.remove plott.Program.Store.store
    plott.Mint.mint_request plott.Mint.mint_confirm plott.Redeem.redeem_request plott.Funding.stake
    plott.Funding.request_unstake plott.Proof.commit_rebalance_proof plott.Oracle.load_price
    plott.Common.Int.◌-ℤ◌ plott.Math.confidence_bps plott.Math.collateral_to_notional
    plott.Math.decimal_shift plott.Common.Int.◌+ℤ◌ plott.Math.scale_down plott.Math.mul_bps_floor
    plott.Math.mul_bps_ceil plott.Math.div_bps_floor plott.Mint.Gates.supply_ceiling
    plott.Mint.Gates.check_issuance_gates plott.Math.delta_bps plott.Common.Int.scale_ℤ
    plott.Common.Int.tdiv plott.Math.acc_entitlement plott.Math.notional_to_collateral
    plott.Math.scale_divided plott.Redeem.redeem_cancel
exits_computed = (refl, refl, refl, refl, refl, refl, refl, refl)

less_than : (a b : ℕ) → ltb a b ≡ true → a < b
less_than a b h = ground (arith, h)

pub exit_opens :
    ((rt.is_open world.tokens (vault collateral_vault) world.config.collateral_mint ≡ true)
      × (rt.is_open world.tokens (wallet (account_of 100 20)) world.config.collateral_mint ≡ true)
      × (rt.balance world.tokens (wallet (account_of 100 20)) + mint_open.collateral_amount
          < 2 ^ 64))
    × ((rt.is_open world.tokens (vault redeem_escrow) world.config.synthetic_mint ≡ true)
        × (rt.is_open world.tokens (wallet (account_of 100 21)) world.config.synthetic_mint ≡ true)
        × (rt.balance world.tokens (wallet (account_of 100 21)) + redeem_open.synthetic_amount
            < 2 ^ 64))
    × ((rt.is_open world.tokens (vault stake_vault) world.config.synthetic_mint ≡ true)
        × (rt.is_open world.tokens (wallet (account_of 100 21)) world.config.synthetic_mint ≡ true)
        × (rt.balance world.tokens (wallet (account_of 100 21)) + leaving.pending_unstake < 2 ^ 64))
exit_opens =
    let (v0, a0, r0, v1, v2, a1, r1, r2) = exits_computed in
    (
      (
        v0,
        a0,
        less_than
            (rt.balance world.tokens (wallet (account_of 100 20)) + mint_open.collateral_amount)
            (2 ^ 64) r0,
      ),
      (
        v1,
        a1,
        less_than
            (rt.balance world.tokens (wallet (account_of 100 21)) + redeem_open.synthetic_amount)
            (2 ^ 64) r1,
      ),
      (
        v2,
        a1,
        less_than (rt.balance world.tokens (wallet (account_of 100 21)) + leaving.pending_unstake)
            (2 ^ 64) r2,
      ),
    )
