-- ===== src/Funding/Paid.antt =====
-- The vaults that `settle_funding` of programs/poyz/src/instructions/funding.rs pays into.
use plott.Common.{
  ℕ, zero, suc, ◌≢◌, ◌+◌, ◌-◌, ◌≡◌, ltb, if◌then◌else◌, Result, ok, some, arith, Result-cases, inl,
  inr,
}
use plott.Runtime.{Runtime, Clock, Done, Vault, vault, wallet, buffer_vault, funding_vault, deposit}
use plott.Runtime.Laws.{TokenLaws}
use plott.Events.Funding.{FundingSettled}
use plott.Funding.Accounts.{SettleFundingCtx}
use plott.Funding.Settle.{settle_part, settle_funding-split}
use plott.Funding.{buffer_part, settle_funding}

module _ {T : Type 0} (rt : Runtime T) (ctx : SettleFundingCtx) where
  -- A deposit into a vault, which is skipped at 0.
  abbrev pub pay_in : T → Vault → ℕ → Result T
  pay_in t v part =
      if ltb 0 part
      then deposit rt t ctx.authority_synthetic ctx.synthetic_mint v ctx.authority part
      else ok t

  pay_in-balance :
      (t t' : T) (v other : Vault) (part : ℕ)
      → pay_in t v part ≡ ok t'
      → other ≢ v
      → TokenLaws rt
      → (rt.balance t' (vault v) ≡ rt.balance t (vault v) + part)
        × (rt.balance t' (vault other) ≡ rt.balance t (vault other))
  pay_in-balance t t' v other zero h apart laws = (ground arith, ground arith)
  pay_in-balance t t' v other (suc n) h apart laws =
      let moved : rt.transfer_checked t (wallet ctx.authority_synthetic) ctx.synthetic_mint
            (vault v) ctx.authority (suc n) (rt.mint_account t ctx.synthetic_mint).decimals
          ≡ some t' =
        ground arith in
      let m =
        laws.transfers t t' (wallet ctx.authority_synthetic) (vault v) ctx.synthetic_mint
          ctx.authority (suc n) (rt.mint_account t ctx.synthetic_mint).decimals moved (λ e. cc) in
      (m.credited, m.others (vault other) (λ e. cc) (λ e. apart cc))

module _ {T : Type 0} (rt : Runtime T) (tokens : T) (clock : Clock) (ctx : SettleFundingCtx)
    (amount : ℕ) (d : Done T (Unit {0}) FundingSettled)
    (done : settle_funding rt tokens clock ctx amount ≡ ok d) where
  settle_deposits :
      buffer_part ctx.config amount ≡ ok d.event.to_buffer
      → amount - d.event.to_buffer ≡ d.event.to_stakers
      → (funded : T) × (pay_in rt ctx tokens buffer_vault d.event.to_buffer ≡ ok funded)
        × (pay_in rt ctx funded funding_vault d.event.to_stakers ≡ ok d.tokens)
  unfolding settle_funding
  settle_deposits parted rest =
      elim (Result-cases (pay_in rt ctx tokens buffer_vault d.event.to_buffer)) [
        | inl (funded, e) ↦ (funded, e, ground (arith, rest))
        | inr (f, e) ↦ ground (arith, rest)
      ]

  pub settle_transfers :
      (funded : T) × (pay_in rt ctx tokens buffer_vault d.event.to_buffer ≡ ok funded)
      × (pay_in rt ctx funded funding_vault d.event.to_stakers ≡ ok d.tokens)
  settle_transfers =
      let (parted, split) = settle_part rt tokens clock ctx amount d done in
      settle_deposits parted (omega (arith, split))

  -- With a token program that keeps its promises (Runtime/Laws): a settlement moves the buffer
  -- vault and the funding vault exactly as the config's counts of them.
  pub settle_funding-vaults :
      TokenLaws rt
      → (rt.balance d.tokens (vault buffer_vault) + ctx.config.buffer_balance
          ≡ rt.balance tokens (vault buffer_vault) + d.config.buffer_balance)
        × (rt.balance d.tokens (vault funding_vault) + ctx.config.staker_funding_balance
            ≡ rt.balance tokens (vault funding_vault) + d.config.staker_funding_balance)
  settle_funding-vaults laws =
      let (funded, b, s) = settle_transfers in
      let (x0, x1) =
        pay_in-balance rt ctx tokens funded buffer_vault funding_vault d.event.to_buffer b (λ e. cc)
          laws in
      let (y0, y1) =
        pay_in-balance rt ctx funded d.tokens funding_vault buffer_vault d.event.to_stakers s
          (λ e. cc) laws in
      let (s0, s1, s2, s3, frame) = settle_funding-split rt tokens clock ctx amount d done in
      let buffered : d.config.buffer_balance ≡ ctx.config.buffer_balance + d.event.to_buffer = cc in
      let paid : d.config.staker_funding_balance
          ≡ ctx.config.staker_funding_balance + d.event.to_stakers =
        cc in
      (omega (arith, x0, y1, buffered), omega (arith, x1, y0, paid))
