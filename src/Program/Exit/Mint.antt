-- ===== src/Program/Exit/Mint.antt =====
-- That an expired mint request can be cancelled.
use plott.Common.{true, ◌<◌, ◌^◌, ℕ, ◌+◌, ◌≤◌, ◌≡◌, refl, some, none, ok, arith}
use plott.Common.Int.{◌<ℤ◌}
use plott.State.{MintRequest}
use plott.Runtime.{Runtime, Clock, Done, Wallet, vault, wallet, collateral_vault}
use plott.Runtime.Laws.{TokenLaws}
use plott.Events.Requests.{MintCancelled}
use plott.Mint.Accounts.{MintCancelCtx}
use plott.Mint.{mint_cancel}
use plott.Mint.Cancel.{mint_cancel_complete}
use plott.Program.Store.{find, remove, total-find, find-at}
use plott.Program.Store.Unique.{find-remove}
use plott.Program.World.{World, is_mint_request}
use plott.Program.Execute.{Instruction, execute}
use plott.Program.Reach.{Reachable}
use plott.Program.Invariant.{Reachable-IsBooked, Reachable-IsSolvent}
use plott.Program.Once.{Reachable-IsKeyed}
use plott.Program.Exit.{Pays}

-- The accounts of a user who cancels: the token account and the accounts that go with it.
abbrev pub mint_cancel_ctx : {T : Type 0} → World T → MintRequest → Wallet → MintCancelCtx
mint_cancel_ctx w r account = record {
  user = account.authority;
  config = w.config;
  request = r;
  collateral_mint = w.config.collateral_mint;
  user_collateral = account;
  token_program = w.config.token_program;
}

module _ {T : Type 0} (rt : Runtime T) (laws : TokenLaws rt) (payer : Pays rt) (clock : Clock)
    (w : World T) (reach : Reachable rt w) (nonce : ℕ) (r : MintRequest) (account : Wallet)
    (found : find (is_mint_request account.authority nonce) w.mint_requests ≡ some r) where
  escrow_covered :
      (r.user ≡ account.authority)
      × (r.collateral_amount ≤ w.config.pending_collateral)
      × (r.collateral_amount ≤ rt.balance w.tokens (vault collateral_vault))
  escrow_covered =
      let own = find-at (is_mint_request account.authority nonce) w.mint_requests r found in
      let one =
        total-find (λ (r : MintRequest). r.collateral_amount)
          (is_mint_request account.authority nonce) w.mint_requests r found in
      let b = Reachable-IsBooked rt w reach in
      let held = Reachable-IsSolvent rt laws w reach collateral_vault in
      (ground (arith, own), omega (arith, one, b.mints), omega (arith, one, b.mints, held))

  executed :
      (d : Done T (Unit {0}) MintCancelled)
      → mint_cancel rt w.tokens clock (mint_cancel_ctx w r account) ≡ ok d
      → execute rt clock (Instruction.mint_cancel (mint_cancel_ctx w r account) nonce) w
        ≡ ok (record w {
          config = d.config;
          mint_requests = remove (is_mint_request account.authority nonce) w.mint_requests;
          tokens = d.tokens;
        })
  unfolding execute
  executed d done = ground (arith, found, done)

  -- With a token program that keeps its promises (Runtime/Laws) and pays out of an open vault into an open
  -- account what the vault covers and the account can take (Pays): in every world that the program
  -- can reach, whatever the pauses, parameters and venues, the user of a mint request whose
  -- deadline has passed can cancel it into an account of the collateral mint, and then has all that
  -- was escrowed back, and the request is gone. The vault and the account hold that mint and are
  -- not frozen, and the account's balance stays below 2^64.
  pub mint_cancel_possible :
      account.mint ≡ w.config.collateral_mint
      → rt.is_open w.tokens (vault collateral_vault) w.config.collateral_mint ≡ true
      → rt.is_open w.tokens (wallet account) w.config.collateral_mint ≡ true
      → rt.balance w.tokens (wallet account) + r.collateral_amount < 2 ^ 64
      → r.deadline <ℤ clock.unix_timestamp
      → (w' : World T) × (execute rt clock
            (Instruction.mint_cancel (mint_cancel_ctx w r account) nonce)
            w
          ≡ ok w')
        × (rt.balance w'.tokens (wallet account)
            ≡ rt.balance w.tokens (wallet account) + r.collateral_amount)
        × (find (is_mint_request account.authority nonce) w'.mint_requests ≡ none)
  mint_cancel_possible same from to room late =
      let (own, counted, held) = escrow_covered in
      let (t, paid) =
        payer.pays w.tokens collateral_vault account w.config.collateral_mint r.collateral_amount
          from to held room in
      let (d, done, landed, config) =
        mint_cancel_complete rt w.tokens clock (mint_cancel_ctx w r account) t refl refl own same
          refl late counted paid in
      let m =
        laws.transfers w.tokens t (vault collateral_vault) (wallet account) w.config.collateral_mint
          rt.config_key r.collateral_amount
          (rt.mint_account w.tokens w.config.collateral_mint).decimals paid (λ e. cc) in
      let one = (Reachable-IsKeyed rt w reach).one_mint account.authority nonce in
      (
        record w {
          config = d.config;
          mint_requests = remove (is_mint_request account.authority nonce) w.mint_requests;
          tokens = d.tokens;
        },
        executed d done,
        rw landed m.credited,
        find-remove (is_mint_request account.authority nonce) w.mint_requests r one found,
      )
