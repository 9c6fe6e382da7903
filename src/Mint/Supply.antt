-- ===== src/Mint/Supply.antt =====
-- The tokens of `mint_confirm` (programs/poyz/src/instructions/mint.rs): who receives the issue, and the
-- supply against the program's own count of it.
use plott.Common.{ℕ, ◌+◌, ◌≤◌, ◌≡◌, some, ok, arith}
use plott.State.Keys.{Hash}
use plott.Runtime.{Runtime, Clock, Done, Vault, vault, wallet}
use plott.Runtime.Laws.{TokenLaws}
use plott.Events.Requests.{MintConfirmed}
use plott.Mint.Accounts.{MintConfirmCtx, mint_confirm_accounts}
use plott.Mint.{mint_confirm}

module _ {T : Type 0} (rt : Runtime T) (tokens : T) (clock : Clock) (ctx : MintConfirmCtx)
    (hash : Hash) (venue_id filled_notional : ℕ) (d : Done T (Unit {0}) MintConfirmed)
    (done : mint_confirm rt tokens clock ctx hash venue_id filled_notional ≡ ok d) where
  issue_minted :
      rt.mint_to tokens ctx.synthetic_mint
        (wallet ctx.user_synthetic)
        rt.config_key
        d.event.synthetic_minted
      ≡ some d.tokens
  unfolding mint_confirm
  issue_minted = ground arith

  issue_counted : d.config.total_synthetic ≡ ctx.config.total_synthetic + d.event.synthetic_minted
  unfolding mint_confirm
  issue_counted = ground arith

  issue_recipient :
      (ctx.config.synthetic_mint ≡ ctx.synthetic_mint)
      × (ctx.user_synthetic.mint ≡ ctx.config.synthetic_mint)
      × (ctx.user_synthetic.authority ≡ ctx.request.user)
      × (ctx.request.min_synthetic_out ≤ d.event.synthetic_minted)
  unfolding mint_confirm mint_confirm_accounts
  issue_recipient = ground arith

  -- With a token program that keeps its promises (Runtime/Laws): the issue goes to an account of
  -- the request's user, is at least what the user asked for, moves no vault, and moves the supply
  -- of the synthetic by what the config's count moves.
  pub mint_confirm-supply :
      TokenLaws rt
      → (ctx.user_synthetic.authority ≡ ctx.request.user)
        × (ctx.request.min_synthetic_out ≤ d.event.synthetic_minted)
        × (rt.balance d.tokens (wallet ctx.user_synthetic)
            ≡ rt.balance tokens (wallet ctx.user_synthetic) + d.event.synthetic_minted)
        × ((v : Vault) → rt.balance d.tokens (vault v) ≡ rt.balance tokens (vault v))
        × (rt.supply d.tokens ctx.config.synthetic_mint + ctx.config.total_synthetic
            ≡ rt.supply tokens ctx.config.synthetic_mint + d.config.total_synthetic)
  mint_confirm-supply laws =
      let (own, mint, user, asked) = issue_recipient in
      let (credited, others, supply) =
        laws.mints tokens d.tokens ctx.synthetic_mint rt.config_key (wallet ctx.user_synthetic)
          d.event.synthetic_minted issue_minted in
      (
        user,
        asked,
        credited,
        λ v. others (vault v) (λ e. cc),
        rw own (omega (arith, supply, issue_counted)),
      )
