-- ===== src/Program/Exit/Unstake.antt =====
-- That a stake that has cooled down can be withdrawn.
use plott.Common.{true, ◌^◌, ◌+◌, ◌≤◌, ◌<◌, ◌≡◌, refl, some, ok, arith}
use plott.Common.Int.{◌≤ℤ◌}
use plott.State.{StakePosition}
use plott.Runtime.{Runtime, Clock, Done, Wallet, vault, wallet, stake_vault}
use plott.Runtime.Laws.{TokenLaws}
use plott.Events.Funding.{Unstaked}
use plott.Funding.Accounts.{UnstakeCtx}
use plott.Funding.{unstake}
use plott.Funding.Stakes.{principal, unstake_complete}
use plott.Program.Store.{find, store, total-find, find-at}
use plott.Program.World.{World, is_position}
use plott.Program.Execute.{Instruction, execute}
use plott.Program.Reach.{Reachable}
use plott.Program.Invariant.{Reachable-IsSolvent}
use plott.Program.Exit.{Pays}

-- The accounts of an owner who withdraws: the token account and the accounts that go with it.
abbrev pub unstake_ctx : {T : Type 0} → World T → StakePosition → Wallet → UnstakeCtx
unstake_ctx w p account = record {
  owner = account.authority;
  config = w.config;
  position = p;
  synthetic_mint = w.config.synthetic_mint;
  owner_synthetic = account;
  token_program = w.config.token_program;
}

module _ {T : Type 0} (rt : Runtime T) (laws : TokenLaws rt) (payer : Pays rt) (clock : Clock)
    (w : World T) (reach : Reachable rt w) (p : StakePosition) (account : Wallet)
    (found : find (is_position account.authority) w.positions ≡ some p) where
  stake_covered :
      (p.owner ≡ account.authority) × (p.pending_unstake ≤ rt.balance w.tokens (vault stake_vault))
  stake_covered =
      let own = find-at (is_position account.authority) w.positions p found in
      let one = total-find principal (is_position account.authority) w.positions p found in
      let held = Reachable-IsSolvent rt laws w reach stake_vault in
      (ground (arith, own), omega (arith, one, held))

  executed :
      (d : Done T StakePosition Unstaked)
      → unstake rt w.tokens clock (unstake_ctx w p account) ≡ ok d
      → execute rt clock (Instruction.unstake (unstake_ctx w p account)) w
        ≡ ok (record w {
          config = d.config;
          positions = store (is_position account.authority) d.account w.positions;
          tokens = d.tokens;
        })
  unfolding execute
  executed d done = ground (arith, found, done)

  -- With a token program that keeps its promises (Runtime/Laws) and pays out of an open vault into an open
  -- account what the vault covers and the account can take (Pays): in every world that the program
  -- can reach, whatever the pauses, parameters and venues, the owner of a position with a withdrawal
  -- that waits and whose cooldown has passed can withdraw all of it into an account of the synthetic
  -- mint, and the config stays as it is. The vault and the account hold that mint and are not
  -- frozen, and the account's balance stays below 2^64.
  pub unstake_possible :
      account.mint ≡ w.config.synthetic_mint
      → rt.is_open w.tokens (vault stake_vault) w.config.synthetic_mint ≡ true
      → rt.is_open w.tokens (wallet account) w.config.synthetic_mint ≡ true
      → rt.balance w.tokens (wallet account) + p.pending_unstake < 2 ^ 64
      → 0 < p.pending_unstake
      → p.cooldown_end ≤ℤ clock.unix_timestamp
      → (w' : World T) × (execute rt clock (Instruction.unstake (unstake_ctx w p account)) w
          ≡ ok w')
        × (rt.balance w'.tokens (wallet account)
            ≡ rt.balance w.tokens (wallet account) + p.pending_unstake)
        × (w'.config ≡ w.config)
  unstake_possible same from to room waiting cooled =
      let (own, held) = stake_covered in
      let (t, paid) =
        payer.pays w.tokens stake_vault account w.config.synthetic_mint p.pending_unstake from to
          held room in
      let (d, done, landed, config) =
        unstake_complete rt w.tokens clock (unstake_ctx w p account) t refl refl own same refl
          waiting cooled paid in
      let m =
        laws.transfers w.tokens t (vault stake_vault) (wallet account) w.config.synthetic_mint
          rt.config_key p.pending_unstake
          (rt.mint_account w.tokens w.config.synthetic_mint).decimals paid (λ e. cc) in
      (
        record w {
          config = d.config;
          positions = store (is_position account.authority) d.account w.positions;
          tokens = d.tokens;
        },
        executed d done,
        rw landed m.credited,
        config,
      )
