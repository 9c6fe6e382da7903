-- ===== src/Mint/Request.antt =====
-- What `mint_request` of programs/poyz/src/instructions/mint.rs takes, and when it is open.
use plott.Common.{ℕ, ◌+◌, ◌<◌, ◌≡◌, true, false, some, ok, arith, Result-cases, inl, inr}
use plott.Common.Int.{pos, ◌+ℤ◌}
use plott.Valuation.{config_price, config_notional}
use plott.State.{MintRequest, vaults_ready}
use plott.Pyth.{OraclePrice}
use plott.Runtime.{Runtime, Clock, Done, vault, wallet, collateral_vault}
use plott.Runtime.Laws.{TokenLaws}
use plott.Events.Requests.{MintRequested}
use plott.Mint.Accounts.{MintRequestCtx}
use plott.Mint.Gates.{check_issuance_gates}
use plott.Mint.Open.{IsOpen, check_issuance_gates-IsOpen}
use plott.Mint.{mint_request}

module _ {T : Type 0} (rt : Runtime T) (tokens : T) (clock : Clock) (ctx : MintRequestCtx)
    (nonce amount least : ℕ) (d : Done T MintRequest MintRequested)
    (done : mint_request rt tokens clock ctx nonce amount least ≡ ok d) where
  -- The request records the caller, the amount and a deadline one time-to-live from now; the config
  -- counts the amount as pending, and moves in nothing else.
  pub mint_request-escrowed :
      (d.account.user ≡ ctx.user)
      × (d.account.collateral_amount ≡ amount)
      × (d.account.min_synthetic_out ≡ least)
      × (d.account.created_at ≡ clock.unix_timestamp)
      × (d.account.deadline ≡ clock.unix_timestamp +ℤ pos ctx.config.request_ttl_sec)
      × (0 < amount)
      × (0 < d.account.quoted_notional)
      × (d.config
          ≡ record ctx.config { pending_collateral = ctx.config.pending_collateral + amount })
  unfolding mint_request
  mint_request-escrowed = ground arith

  request_price :
      (price : OraclePrice) × (config_price rt ctx.config ctx.oracle clock.unix_timestamp
        ≡ ok price)
  unfolding mint_request
  request_price = elim (Result-cases (config_price rt ctx.config ctx.oracle clock.unix_timestamp)) [
    | inl found ↦ found
    | inr (f, e) ↦ ground arith
  ]

  request_gates :
      (price : OraclePrice)
      → config_price rt ctx.config ctx.oracle clock.unix_timestamp ≡ ok price
      → (check_issuance_gates ctx.config clock.unix_timestamp price ≡ ok tt)
        × (config_notional ctx.config price amount ≡ ok d.account.quoted_notional)
  unfolding mint_request
  request_gates price e = ground arith

  request_guards :
      (ctx.config.mint_paused ≡ false)
      × (vaults_ready ctx.config ≡ true)
      × (0 < ctx.config.keeper_count)
  unfolding mint_request
  request_guards = ground arith

  -- A request is only taken with the mint unpaused, the vaults made, a keeper registered and the
  -- issuance gates open at the oracle's price, and its quote is the value of the collateral there.
  pub mint_request-IsOpen :
      (ctx.config.mint_paused ≡ false)
      × (vaults_ready ctx.config ≡ true)
      × (0 < ctx.config.keeper_count)
      × ((price : OraclePrice) × (config_price rt ctx.config ctx.oracle clock.unix_timestamp
            ≡ ok price)
          × IsOpen ctx.config clock.unix_timestamp price
          × (config_notional ctx.config price amount ≡ ok d.account.quoted_notional))
  mint_request-IsOpen =
      let (price, e) = request_price in
      let (gates, quote) = request_gates price e in
      let (a, b, c) = request_guards in
      (
        a,
        b,
        c,
        (price, e, check_issuance_gates-IsOpen ctx.config clock.unix_timestamp price gates, quote),
      )

  request_transfer :
      rt.transfer_checked tokens
        (wallet ctx.user_collateral)
        ctx.collateral_mint
        (vault collateral_vault)
        ctx.user
        amount
        (rt.mint_account tokens ctx.collateral_mint).decimals
      ≡ some d.tokens
  unfolding mint_request
  request_transfer = ground arith

  request_pending : d.config.pending_collateral ≡ ctx.config.pending_collateral + amount
  unfolding mint_request
  request_pending = ground arith

  -- With a token program that keeps its promises (Runtime/Laws): the collateral moves from the
  -- caller's account into the vault, which moves exactly as the pending total.
  pub mint_request-vault :
      TokenLaws rt
      → (rt.balance tokens (wallet ctx.user_collateral)
          ≡ rt.balance d.tokens (wallet ctx.user_collateral) + amount)
        × (rt.balance d.tokens (vault collateral_vault) + ctx.config.pending_collateral
            ≡ rt.balance tokens (vault collateral_vault) + d.config.pending_collateral)
  mint_request-vault laws =
      let m =
        laws.transfers tokens d.tokens (wallet ctx.user_collateral) (vault collateral_vault)
          ctx.collateral_mint ctx.user amount (rt.mint_account tokens ctx.collateral_mint).decimals
          request_transfer (λ e. cc) in
      (m.debited, omega (arith, m.credited, request_pending))
