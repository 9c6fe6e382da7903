-- ===== src/Program/Exit/Redeem.antt =====
-- That an expired redeem request can be cancelled.
use plott.Common.{true, ◌<◌, ◌^◌, ℕ, ◌+◌, ◌≤◌, ◌≡◌, refl, some, none, ok, arith}
use plott.Common.Int.{◌<ℤ◌}
use plott.State.{RedeemRequest}
use plott.Runtime.{Runtime, Clock, Done, Wallet, vault, wallet, redeem_escrow}
use plott.Runtime.Laws.{TokenLaws}
use plott.Events.Requests.{RedeemCancelled}
use plott.Redeem.Accounts.{RedeemCancelCtx}
use plott.Redeem.{redeem_cancel}
use plott.Redeem.Cancel.{redeem_cancel_complete}
use plott.Program.Store.{find, remove, total-find, find-at}
use plott.Program.Store.Unique.{find-remove}
use plott.Program.World.{World, is_redeem_request}
use plott.Program.Execute.{Instruction, execute}
use plott.Program.Reach.{Reachable}
use plott.Program.Invariant.{Reachable-IsBooked, Reachable-IsSolvent}
use plott.Program.Once.{Reachable-IsKeyed}
use plott.Program.Exit.{Pays}

-- The accounts of a user who cancels: the token account and the accounts that go with it.
abbrev pub redeem_cancel_ctx : {T : Type 0} → World T → RedeemRequest → Wallet → RedeemCancelCtx
redeem_cancel_ctx w r account = record {
  user = account.authority;
  config = w.config;
  request = r;
  synthetic_mint = w.config.synthetic_mint;
  user_synthetic = account;
  token_program = w.config.token_program;
}

module _ {T : Type 0} (rt : Runtime T) (laws : TokenLaws rt) (payer : Pays rt) (clock : Clock)
    (w : World T) (reach : Reachable rt w) (nonce : ℕ) (r : RedeemRequest) (account : Wallet)
    (found : find (is_redeem_request account.authority nonce) w.redeem_requests ≡ some r) where
  escrow_covered :
      (r.user ≡ account.authority)
      × (r.synthetic_amount ≤ w.config.pending_redeem_synthetic)
      × (r.synthetic_amount ≤ rt.balance w.tokens (vault redeem_escrow))
  escrow_covered =
      let own = find-at (is_redeem_request account.authority nonce) w.redeem_requests r found in
      let one =
        total-find (λ (r : RedeemRequest). r.synthetic_amount)
          (is_redeem_request account.authority nonce) w.redeem_requests r found in
      let b = Reachable-IsBooked rt w reach in
      let held = Reachable-IsSolvent rt laws w reach redeem_escrow in
      (ground (arith, own), omega (arith, one, b.redeems), omega (arith, one, b.redeems, held))

  executed :
      (d : Done T (Unit {0}) RedeemCancelled)
      → redeem_cancel rt w.tokens clock (redeem_cancel_ctx w r account) ≡ ok d
      → execute rt clock (Instruction.redeem_cancel (redeem_cancel_ctx w r account) nonce) w
        ≡ ok (record w {
          config = d.config;
          redeem_requests = remove (is_redeem_request account.authority nonce) w.redeem_requests;
          tokens = d.tokens;
        })
  unfolding execute
  executed d done = ground (arith, found, done)

  -- With a token program that keeps its promises (Runtime/Laws) and pays out of an open vault into an open
  -- account what the vault covers and the account can take (Pays): in every world that the program
  -- can reach, whatever the pauses, parameters and venues, the user of a redeem request whose
  -- deadline has passed can cancel it into an account of the synthetic mint, and then has all that
  -- was escrowed back, and the request is gone. The vault and the account hold that mint and are
  -- not frozen, and the account's balance stays below 2^64.
  pub redeem_cancel_possible :
      account.mint ≡ w.config.synthetic_mint
      → rt.is_open w.tokens (vault redeem_escrow) w.config.synthetic_mint ≡ true
      → rt.is_open w.tokens (wallet account) w.config.synthetic_mint ≡ true
      → rt.balance w.tokens (wallet account) + r.synthetic_amount < 2 ^ 64
      → r.deadline <ℤ clock.unix_timestamp
      → (w' : World T) × (execute rt clock
            (Instruction.redeem_cancel (redeem_cancel_ctx w r account) nonce)
            w
          ≡ ok w')
        × (rt.balance w'.tokens (wallet account)
            ≡ rt.balance w.tokens (wallet account) + r.synthetic_amount)
        × (find (is_redeem_request account.authority nonce) w'.redeem_requests ≡ none)
  redeem_cancel_possible same from to room late =
      let (own, counted, held) = escrow_covered in
      let (t, paid) =
        payer.pays w.tokens redeem_escrow account w.config.synthetic_mint r.synthetic_amount from to
          held room in
      let (d, done, landed, config) =
        redeem_cancel_complete rt w.tokens clock (redeem_cancel_ctx w r account) t refl refl own
          same refl late counted paid in
      let m =
        laws.transfers w.tokens t (vault redeem_escrow) (wallet account) w.config.synthetic_mint
          rt.config_key r.synthetic_amount
          (rt.mint_account w.tokens w.config.synthetic_mint).decimals paid (λ e. cc) in
      let one = (Reachable-IsKeyed rt w reach).one_redeem account.authority nonce in
      (
        record w {
          config = d.config;
          redeem_requests = remove (is_redeem_request account.authority nonce) w.redeem_requests;
          tokens = d.tokens;
        },
        executed d done,
        rw landed m.credited,
        find-remove (is_redeem_request account.authority nonce) w.redeem_requests r one found,
      )
