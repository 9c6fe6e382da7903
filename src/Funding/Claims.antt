-- ===== src/Funding/Claims.antt =====
-- What `claim_funding` of programs/poyz/src/instructions/funding.rs pays.
use plott.Common.{◌∙◌, ap, sym, ◌+◌, ◌<◌, ◌≡◌, ok, some, arith, Result-cases, inl, inr}
use plott.State.{StakePosition}
use plott.Runtime.{Runtime, Clock, Done, vault, wallet, funding_vault}
use plott.Math.{acc_entitlement}
use plott.Runtime.Laws.{TokenLaws}
use plott.Events.Funding.{FundingClaimed}
use plott.Funding.Accounts.{UnstakeCtx, unstake_accounts}
use plott.Funding.Accrue.{accrue-credited}
use plott.Funding.{accrue, claim_funding}

module _ {T : Type 0} (rt : Runtime T) (tokens : T) (clock : Clock) (ctx : UnstakeCtx)
    (d : Done T StakePosition FundingClaimed)
    (done : claim_funding rt tokens clock ctx ≡ ok d) where
  claim_accrued :
      (accrued : StakePosition) × (accrue ctx.position ctx.config.acc_funding_per_share
        ≡ ok accrued)
  unfolding claim_funding
  claim_accrued = elim (Result-cases (accrue ctx.position ctx.config.acc_funding_per_share)) [
    | inl found ↦ found
    | inr (f, k) ↦ ground arith
  ]

  claim_facts :
      (accrued : StakePosition)
      → accrue ctx.position ctx.config.acc_funding_per_share ≡ ok accrued
      → (d.event.amount ≡ accrued.unclaimed)
        × (0 < accrued.unclaimed)
        × (d.account.unclaimed ≡ 0)
        × (d.account.amount ≡ accrued.amount)
        × (d.account.reward_debt ≡ accrued.reward_debt)
        × (d.account.claimed_total ≡ accrued.claimed_total + accrued.unclaimed)
        × (d.config.staker_funding_balance + accrued.unclaimed ≡ ctx.config.staker_funding_balance)
        × (d.config
            ≡ record ctx.config { staker_funding_balance = d.config.staker_funding_balance })
  unfolding claim_funding
  claim_facts accrued k = ground arith

  claim_moved :
      (accrued : StakePosition)
      → accrue ctx.position ctx.config.acc_funding_per_share ≡ ok accrued
      → (ctx.owner_synthetic.authority ≡ ctx.position.owner)
        × (rt.transfer_checked tokens
              (vault funding_vault)
              ctx.synthetic_mint
              (wallet ctx.owner_synthetic)
              rt.config_key
              accrued.unclaimed
              (rt.mint_account tokens ctx.synthetic_mint).decimals
            ≡ some d.tokens)
  unfolding claim_funding unstake_accounts
  claim_moved accrued k = ground arith

  -- With a token program that keeps its promises (Runtime/Laws): a claim pays an account of the
  -- position's owner all that was unclaimed and what the position has earned since, which is its
  -- entitlement at the config's accumulator now less the debt that it had, and that entitlement is
  -- its debt from then on: what is left to claim is 0, the lifetime count rises by the payment, and the funding vault moves
  -- exactly as the stakers' balance, which is all of the config that changes.
  pub claim_funding-paid :
      TokenLaws rt
      → (ctx.owner_synthetic.authority ≡ ctx.position.owner)
        × (d.account.unclaimed ≡ 0)
        × (d.account.amount ≡ ctx.position.amount)
        × (acc_entitlement ctx.position.amount ctx.config.acc_funding_per_share
            ≡ ok d.account.reward_debt)
        × (d.event.amount + ctx.position.reward_debt
            ≡ ctx.position.unclaimed + d.account.reward_debt)
        × (d.account.claimed_total ≡ ctx.position.claimed_total + d.event.amount)
        × (rt.balance d.tokens (wallet ctx.owner_synthetic)
            ≡ rt.balance tokens (wallet ctx.owner_synthetic) + d.event.amount)
        × (rt.balance d.tokens (vault funding_vault) + ctx.config.staker_funding_balance
            ≡ rt.balance tokens (vault funding_vault) + d.config.staker_funding_balance)
        × (d.config
            ≡ record ctx.config { staker_funding_balance = d.config.staker_funding_balance })
  claim_funding-paid laws =
      let (accrued, k) = claim_accrued in
      let (f0, f1, f2, f3, f4, f5, f6, f7) = claim_facts accrued k in
      let (own, moved) = claim_moved accrued k in
      let (c0, c1, c2, frame) =
        accrue-credited ctx.position ctx.config.acc_funding_per_share accrued k in
      let m =
        laws.transfers tokens d.tokens (vault funding_vault) (wallet ctx.owner_synthetic)
          ctx.synthetic_mint rt.config_key accrued.unclaimed
          (rt.mint_account tokens ctx.synthetic_mint).decimals moved (λ z. cc) in
      let claimed : accrued.claimed_total ≡ ctx.position.claimed_total = cc in
      (
        own,
        f2,
        cc,
        c0 ∙ ap ok (sym f4),
        omega (arith, f0, f4, c2),
        omega (arith, f0, f5, claimed),
        omega (arith, f0, m.credited),
        omega (arith, m.debited, f6),
        f7,
      )
