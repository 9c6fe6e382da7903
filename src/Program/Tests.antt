-- ===== src/Program/Tests.antt =====
-- The theorems about the whole program at the worlds of History.
use plott.Common.{
  true, ◌<◌, err, account_not_initialized, arith, ◌≤◌, ◌+◌, ◌-◌, ◌⊎◌, ℕ, ◌≡◌, refl, none, some, ok,
}
use plott.State.{RebalanceProof}
use plott.Examples.{value_of, ok-value_of}
use plott.Examples.Setup.{update, rt, clock, account_of}
use plott.Examples.Ledger.{Tokens, set, runtime-TokenLaws}
use plott.Runtime.{Vault, Wallet, vault, wallet, stake_vault}
use plott.Mint.Accounts.{MintCancelCtx}
use plott.Admin.Validated.{IsValidated}
use plott.Proof.Chain.{preimage_of}
use plott.Program.World.{World}
use plott.Program.Execute.{Instruction, execute}
use plott.Program.Store.{find, total}
use plott.Program.World.{is_mint_request, is_redeem_request, is_position, is_proof}
use plott.Program.Owed.{owed_by}
use plott.Program.Booked.{IsBooked}
use plott.Program.Invariant.{Reachable-IsBooked, Reachable-IsSolvent}
use plott.Program.Exit.{Pays}
use plott.Program.Exit.Mint.{mint_cancel_ctx, mint_cancel_possible}
use plott.Program.Exit.Redeem.{redeem_cancel_ctx, redeem_cancel_possible}
use plott.Program.Exit.Unstake.{unstake_ctx, unstake_possible}
use plott.Program.Keyed.{IsKeyed}
use plott.Program.Once.{Reachable-IsKeyed}
use plott.Program.Later.{now, followed}
use plott.Program.Once.Mint.{mint_settled_once}
use plott.Program.Once.Redeem.{redeem_settled_once}
use plott.Program.Lifecycle.Mint.{mint_request_lifecycle}
use plott.Program.Lifecycle.Redeem.{redeem_request_lifecycle}
use plott.Program.Dollar.{play, dollar_of}
use plott.Program.Dollar.Balance.{IsBalanced}
use plott.Program.Dollar.Refined.{orders_of, Reachable-play}
use plott.Program.Heads.{head_of}
use plott.Program.Chain.{IsChain, Reachable-IsChain, Reachable-gapless}
use plott.Program.Supply.{execute-supply}
use plott.Program.Paused.{execute-paused}
use plott.Program.Validated.{Reachable-IsValidated}
use plott.Program.History.{
  some-content_of, start, world, world-Reachable, confirm_ctx, confirm, first, history_runs,
  confirmed, confirmed_ok, late, mint_open, redeem_open, leaving, returned, open_requests,
  exit_opens, after_both, after_both_ok,
}

-- The example's token program pays what Pays says.
runtime-Pays : Pays rt
runtime-Pays = record {
  pays = λ t from to mint amount own same held room. paid t from to mint amount own same held;
}
  where
    paid :
        (t : Tokens) (from : Vault) (to : Wallet) (mint amount : ℕ)
        → rt.is_open t (vault from) mint ≡ true
        → rt.is_open t (wallet to) mint ≡ true
        → amount ≤ rt.balance t (vault from)
        → (t' : Tokens) × (rt.transfer_checked t
              (vault from)
              mint
              (wallet to)
              rt.config_key
              amount
              (rt.mint_account t mint).decimals
            ≡ some t')
    paid t from to mint amount own same held = (
      let taken = set t.balances (vault from) (t.balances (vault from) - amount) in
          record t { balances = set taken (wallet to) (taken (wallet to) + amount) },
      ground (arith, own, same, held),
    )

Reachable-IsSolvent_example :
    owed_by world stake_vault ≤ rt.balance world.tokens (vault stake_vault)
Reachable-IsSolvent_example =
    Reachable-IsSolvent rt (runtime-TokenLaws update) world world-Reachable stake_vault

Reachable-IsBooked_example : IsBooked world
Reachable-IsBooked_example = Reachable-IsBooked rt world world-Reachable

mint_cancel_possible_example :
    (w' : World Tokens) × (execute rt late
        (Instruction.mint_cancel (mint_cancel_ctx world mint_open (account_of 100 20)) 8)
        world
      ≡ ok w')
    × (rt.balance w'.tokens (wallet (account_of 100 20))
        ≡ rt.balance world.tokens (wallet (account_of 100 20)) + mint_open.collateral_amount)
    × (find (is_mint_request 100 8) w'.mint_requests ≡ none)
mint_cancel_possible_example =
    mint_cancel_possible rt (runtime-TokenLaws update) runtime-Pays late world world-Reachable 8
      mint_open (account_of 100 20)
      (some-content_of (find (is_mint_request 100 8) world.mint_requests) history_runs.3)
      history_runs.1.0 exit_opens.0.0 exit_opens.0.1 exit_opens.0.2
      (rw open_requests.0.0 (omega arith))

redeem_cancel_possible_example :
    (w' : World Tokens) × (execute rt late
        (Instruction.redeem_cancel (redeem_cancel_ctx world redeem_open (account_of 100 21)) 9)
        world
      ≡ ok w')
    × (rt.balance w'.tokens (wallet (account_of 100 21))
        ≡ rt.balance world.tokens (wallet (account_of 100 21)) + redeem_open.synthetic_amount)
    × (find (is_redeem_request 100 9) w'.redeem_requests ≡ none)
redeem_cancel_possible_example =
    redeem_cancel_possible rt (runtime-TokenLaws update) runtime-Pays late world world-Reachable 9
      redeem_open (account_of 100 21)
      (some-content_of (find (is_redeem_request 100 9) world.redeem_requests) history_runs.4)
      history_runs.1.1 exit_opens.1.0 exit_opens.1.1 exit_opens.1.2
      (rw open_requests.0.1 (omega arith))

unstake_possible_example :
    (w' : World Tokens) × (execute rt late
        (Instruction.unstake (unstake_ctx world leaving (account_of 100 21)))
        world
      ≡ ok w')
    × (rt.balance w'.tokens (wallet (account_of 100 21))
        ≡ rt.balance world.tokens (wallet (account_of 100 21)) + leaving.pending_unstake)
    × (w'.config ≡ world.config)
unstake_possible_example =
    unstake_possible rt (runtime-TokenLaws update) runtime-Pays late world world-Reachable leaving
      (account_of 100 21) (some-content_of (find (is_position 100) world.positions) history_runs.5)
      history_runs.1.1 exit_opens.2.0 exit_opens.2.1 exit_opens.2.2
      (omega (arith, open_requests.0.3)) (rw open_requests.0.2 (omega arith))

-- The request that has been confirmed cannot be cancelled later.
abbrev cancel_late : MintCancelCtx
cancel_late = mint_cancel_ctx world mint_open (account_of 100 20)

mint_settled_once_example :
    execute rt late (Instruction.mint_cancel cancel_late 8) after_both ≡ err account_not_initialized
mint_settled_once_example =
    mint_settled_once rt world confirmed after_both clock late 100 8 confirm
      (Instruction.mint_cancel cancel_late 8) world-Reachable
      (plott.Program.Once.Mint.confirms confirm_ctx 99 1 300_000_000 refl)
      (plott.Program.Once.Mint.cancels cancel_late refl) confirmed_ok
      (followed late returned now refl after_both_ok)

abbrev after_return : World Tokens
after_return = value_of (execute rt late returned world) open_requests.1

returned_ok : execute rt late returned world ≡ ok after_return
returned_ok = ok-value_of (execute rt late returned world) open_requests.1

redeem_settled_once_example : execute rt late returned after_return ≡ err account_not_initialized
redeem_settled_once_example =
    redeem_settled_once rt world after_return after_return late late 100 9 returned returned
      world-Reachable
      (plott.Program.Once.Redeem.cancels (redeem_cancel_ctx world redeem_open (account_of 100 21))
        refl)
      (plott.Program.Once.Redeem.cancels (redeem_cancel_ctx world redeem_open (account_of 100 21))
        refl)
      returned_ok now

Reachable-play_example :
    (play (orders_of rt world-Reachable) ≡ some (dollar_of world.config))
    × IsBalanced (orders_of rt world-Reachable) (dollar_of world.config)
Reachable-play_example = Reachable-play rt world world-Reachable

Reachable-IsChain_example : IsChain rt (head_of world.config) world.proofs
Reachable-IsChain_example = Reachable-IsChain rt world world-Reachable

Reachable-gapless_example :
    (total (λ (p : RebalanceProof). 1) world.proofs ≡ world.config.rebalance_count)
    × (((0 < world.config.rebalance_count)
          × ((p : RebalanceProof) × (find (is_proof 0) world.proofs ≡ some p)
              × (p.this_hash ≡ rt.hashv (preimage_of rt.config_key p))))
        ⊎ ((world.config.rebalance_count ≤ 0) × (find (is_proof 0) world.proofs ≡ none)))
Reachable-gapless_example = Reachable-gapless rt world 0 world-Reachable

execute-supply_example :
    rt.supply confirmed.tokens world.config.synthetic_mint + world.config.total_synthetic
    ≡ rt.supply world.tokens world.config.synthetic_mint + confirmed.config.total_synthetic
execute-supply_example =
    execute-supply rt (runtime-TokenLaws update) clock world confirm confirmed confirmed_ok

abbrev after_first : World Tokens
after_first = value_of (execute rt clock first start) history_runs.6

first_ok : execute rt clock first start ≡ ok after_first
first_ok = ok-value_of (execute rt clock first start) history_runs.6

execute-paused_example :
    (after_first.config.total_synthetic ≡ start.config.total_synthetic)
    × (after_first.config.total_collateral ≡ start.config.total_collateral)
execute-paused_example =
    execute-paused rt clock start first after_first first_ok history_runs.7.0 history_runs.7.1

Reachable-IsValidated_example : IsValidated world.config
Reachable-IsValidated_example = Reachable-IsValidated rt world world-Reachable

Reachable-IsKeyed_example :
    IsKeyed world.keepers world.mint_requests world.redeem_requests world.positions
Reachable-IsKeyed_example = Reachable-IsKeyed rt world world-Reachable

mint_request_lifecycle_example :
    (find (is_mint_request 100 8) confirmed.mint_requests ≡ some mint_open)
    ⊎ ((find (is_mint_request 100 8) confirmed.mint_requests ≡ none)
        × plott.Program.Lifecycle.Mint.Ended clock world.config confirmed.config mint_open)
mint_request_lifecycle_example =
    mint_request_lifecycle rt clock world confirmed confirm 100 8 mint_open world-Reachable
      (some-content_of (find (is_mint_request 100 8) world.mint_requests) history_runs.3)
      confirmed_ok

redeem_request_lifecycle_example :
    (find (is_redeem_request 100 9) after_return.redeem_requests ≡ some redeem_open)
    ⊎ ((find (is_redeem_request 100 9) after_return.redeem_requests ≡ none)
        × plott.Program.Lifecycle.Redeem.Ended late world.config after_return.config redeem_open)
redeem_request_lifecycle_example =
    redeem_request_lifecycle rt late world after_return returned 100 9 redeem_open world-Reachable
      (some-content_of (find (is_redeem_request 100 9) world.redeem_requests) history_runs.4)
      returned_ok
