-- ===== src/Funding/Stakes.antt =====
-- A stake and its principal (`stake`, `request_unstake` and `unstake` of
-- programs/poyz/src/instructions/funding.rs).
use plott.Common.{ℕ, ◌+◌, ◌-◌, ◌≤◌, ◌<◌, ◌≡◌, ◌⊎◌, inl, inr, false, ok, some, arith, Result-cases}
use plott.Common.Int.{pos, ◌≤ℤ◌, ◌+ℤ◌}
use plott.Math.{acc_entitlement}
use plott.State.{StakePosition}
use plott.State.Keys.{Pubkey, default_key}
use plott.Runtime.{Runtime, Clock, Done, vault, wallet, stake_vault}
use plott.Runtime.Laws.{TokenLaws}
use plott.Events.Funding.{Staked, UnstakeRequested, Unstaked}
use plott.Funding.Accounts.{StakeCtx, UnstakeCtx, unstake_accounts}
use plott.Funding.Accrue.{accrue-credited}
use plott.Funding.{accrue, claim_position, stake, request_unstake, unstake}

-- What the stake vault owes a position: its stake, and what waits for the cooldown.
abbrev pub principal : StakePosition → ℕ
principal p = p.amount + p.pending_unstake

claim_position_lem :
    (p : StakePosition) (owner : Pubkey) (owned : StakePosition)
    → claim_position p owner ≡ ok owned
    → (owned ≡ record p { owner = owner }) × ((p.owner ≡ default_key) ⊎ (p.owner ≡ owner))
unfolding claim_position
claim_position_lem p owner owned h = ground arith

module _ {T : Type 0} (rt : Runtime T) (tokens : T) (clock : Clock) where
  module _ (ctx : StakeCtx) (amount : ℕ) (d : Done T StakePosition Staked)
      (done : stake rt tokens clock ctx amount ≡ ok d) where
    stake_owned : (owned : StakePosition) × (claim_position ctx.position ctx.owner ≡ ok owned)
    unfolding stake
    stake_owned = elim (Result-cases (claim_position ctx.position ctx.owner)) [
      | inl found ↦ found
      | inr (f, e) ↦ ground arith
    ]

    stake_accrued :
        (owned : StakePosition)
        → claim_position ctx.position ctx.owner ≡ ok owned
        → (accrued : StakePosition) × (accrue owned ctx.config.acc_funding_per_share ≡ ok accrued)
    unfolding stake
    stake_accrued owned e = elim (Result-cases (accrue owned ctx.config.acc_funding_per_share)) [
      | inl found ↦ found
      | inr (f, k) ↦ ground arith
    ]

    stake_facts :
        (owned : StakePosition)
        → claim_position ctx.position ctx.owner ≡ ok owned
        → (accrued : StakePosition) → accrue owned ctx.config.acc_funding_per_share ≡ ok accrued
        → (ctx.config.mint_paused ≡ false)
          × (0 < amount)
          × (d.account.amount ≡ accrued.amount + amount)
          × (d.account.unclaimed ≡ accrued.unclaimed)
          × (d.account.pending_unstake ≡ accrued.pending_unstake)
          × (d.account.owner ≡ accrued.owner)
          × (acc_entitlement d.account.amount ctx.config.acc_funding_per_share
              ≡ ok d.account.reward_debt)
          × (d.config ≡ record ctx.config { total_staked = ctx.config.total_staked + amount })
          × (rt.transfer_checked tokens
                (wallet ctx.owner_synthetic)
                ctx.synthetic_mint
                (vault stake_vault)
                ctx.owner
                amount
                (rt.mint_account tokens ctx.synthetic_mint).decimals
              ≡ some d.tokens)
    unfolding stake
    stake_facts owned e accrued k =
        elim (Result-cases
          (acc_entitlement (accrued.amount + amount) ctx.config.acc_funding_per_share)) [
            | inl (debt, m) ↦ ground arith
            | inr (f, m) ↦ ground arith
          ]

    -- With a token program that keeps its promises (Runtime/Laws): a stake adds the amount to the
    -- position and to the total and pays it into the stake vault; what the position has earned
    -- stays credited, and its debt becomes the entitlement of the new stake, so that the new part
    -- earns nothing from before. The position is new, or the caller's.
    pub stake-principal :
        TokenLaws rt
        → (d.account.owner ≡ ctx.owner)
          × ((ctx.position.owner ≡ default_key) ⊎ (ctx.position.owner ≡ ctx.owner))
          × (principal d.account ≡ principal ctx.position + amount)
          × (ctx.position.unclaimed ≤ d.account.unclaimed)
          × (acc_entitlement d.account.amount ctx.config.acc_funding_per_share
              ≡ ok d.account.reward_debt)
          × (d.config ≡ record ctx.config { total_staked = ctx.config.total_staked + amount })
          × (rt.balance d.tokens (vault stake_vault)
              ≡ rt.balance tokens (vault stake_vault) + amount)
    stake-principal laws =
        let (owned, e) = stake_owned in
        let (accrued, k) = stake_accrued owned e in
        let (f0, f1, f2, f3, f4, f5, f6, f7, moved) = stake_facts owned e accrued k in
        let (same, owner) = claim_position_lem ctx.position ctx.owner owned e in
        let (c0, c1, c2, frame) =
          accrue-credited owned ctx.config.acc_funding_per_share accrued k in
        let m =
          laws.transfers tokens d.tokens (wallet ctx.owner_synthetic) (vault stake_vault)
            ctx.synthetic_mint ctx.owner amount (rt.mint_account tokens ctx.synthetic_mint).decimals
            moved (λ z. cc) in
        let stake : accrued.amount ≡ ctx.position.amount = cc in
        let waiting : accrued.pending_unstake ≡ ctx.position.pending_unstake = cc in
        let before : owned.unclaimed ≡ ctx.position.unclaimed = cc in
        (
          cc,
          owner,
          omega (arith, stake, waiting, f2, f4),
          omega (arith, before, f3, c1, c2),
          f6,
          f7,
          m.credited,
        )

  module _ (ctx : UnstakeCtx) (amount : ℕ) (d : Done T StakePosition UnstakeRequested)
      (done : request_unstake rt tokens clock ctx amount ≡ ok d) where
    unstake_accrued :
        (accrued : StakePosition) × (accrue ctx.position ctx.config.acc_funding_per_share
          ≡ ok accrued)
    unfolding request_unstake
    unstake_accrued = elim (Result-cases (accrue ctx.position ctx.config.acc_funding_per_share)) [
      | inl found ↦ found
      | inr (f, k) ↦ ground arith
    ]

    unstake_facts :
        (accrued : StakePosition)
        → accrue ctx.position ctx.config.acc_funding_per_share ≡ ok accrued
        → (d.account.amount + amount ≡ accrued.amount)
          × (d.account.pending_unstake ≡ accrued.pending_unstake + amount)
          × (d.account.unclaimed ≡ accrued.unclaimed)
          × (d.account.cooldown_end ≡ clock.unix_timestamp +ℤ pos ctx.config.unstake_cooldown_sec)
          × (d.config.total_staked + amount ≡ ctx.config.total_staked)
          × (d.tokens ≡ tokens)
          × (acc_entitlement d.account.amount ctx.config.acc_funding_per_share
              ≡ ok d.account.reward_debt)
    unfolding request_unstake
    unstake_facts accrued k =
        elim (Result-cases
          (acc_entitlement (accrued.amount - amount) ctx.config.acc_funding_per_share)) [
            | inl (debt, m) ↦ ground arith
            | inr (f, m) ↦ ground arith
          ]

    -- A request moves the amount out of the stake and of the total, so that it earns no more, and into
    -- what waits, for one cooldown from now; what the position has earned so far is credited, and
    -- no token moves.
    pub request_unstake-principal :
        (principal d.account ≡ principal ctx.position)
        × (d.account.amount + amount ≡ ctx.position.amount)
        × (d.account.cooldown_end ≡ clock.unix_timestamp +ℤ pos ctx.config.unstake_cooldown_sec)
        × (d.config.total_staked + amount ≡ ctx.config.total_staked)
        × (ctx.position.unclaimed ≤ d.account.unclaimed)
        × (acc_entitlement d.account.amount ctx.config.acc_funding_per_share
            ≡ ok d.account.reward_debt)
        × (d.tokens ≡ tokens)
    request_unstake-principal =
        let (accrued, k) = unstake_accrued in
        let (f0, f1, f2, f3, f4, f5, f6) = unstake_facts accrued k in
        let (c0, c1, c2, frame) =
          accrue-credited ctx.position ctx.config.acc_funding_per_share accrued k in
        let stake : accrued.amount ≡ ctx.position.amount = cc in
        let waiting : accrued.pending_unstake ≡ ctx.position.pending_unstake = cc in
        (
          omega (arith, stake, waiting, f0, f1),
          omega (arith, stake, f0),
          f3,
          f4,
          omega (arith, f2, c1, c2),
          f6,
          f5,
        )

  pub unstake_paid :
      (ctx : UnstakeCtx) (d : Done T StakePosition Unstaked)
      → unstake rt tokens clock ctx ≡ ok d
      → (ctx.position.cooldown_end ≤ℤ clock.unix_timestamp)
        × (ctx.owner_synthetic.authority ≡ ctx.position.owner)
        × (d.account.amount ≡ ctx.position.amount)
        × (d.account.pending_unstake ≡ 0)
        × (d.config ≡ ctx.config)
        × (rt.transfer_checked tokens
              (vault stake_vault)
              ctx.synthetic_mint
              (wallet ctx.owner_synthetic)
              rt.config_key
              ctx.position.pending_unstake
              (rt.mint_account tokens ctx.synthetic_mint).decimals
            ≡ some d.tokens)
  unfolding unstake unstake_accounts
  unstake_paid ctx d done = ground arith

  -- With a token program that keeps its promises (Runtime/Laws): after the cooldown, all that
  -- waits is paid to an account of the position's owner, the stake vault falls by what it owes the
  -- position less, and the config does not change.
  pub unstake-principal :
      (ctx : UnstakeCtx) (d : Done T StakePosition Unstaked)
      → unstake rt tokens clock ctx ≡ ok d
      → TokenLaws rt
      → (ctx.position.cooldown_end ≤ℤ clock.unix_timestamp)
        × (ctx.owner_synthetic.authority ≡ ctx.position.owner)
        × (rt.balance d.tokens (wallet ctx.owner_synthetic)
            ≡ rt.balance tokens (wallet ctx.owner_synthetic) + ctx.position.pending_unstake)
        × (rt.balance d.tokens (vault stake_vault) + principal ctx.position
            ≡ rt.balance tokens (vault stake_vault) + principal d.account)
        × (d.account.amount ≡ ctx.position.amount)
        × (d.config ≡ ctx.config)
  unstake-principal ctx d done laws =
      let (f0, f1, f2, f3, f4, moved) = unstake_paid ctx d done in
      let m =
        laws.transfers tokens d.tokens (vault stake_vault) (wallet ctx.owner_synthetic)
          ctx.synthetic_mint rt.config_key ctx.position.pending_unstake
          (rt.mint_account tokens ctx.synthetic_mint).decimals moved (λ z. cc) in
      (f0, f1, m.credited, omega (arith, m.debited, f2, f3), f2, f4)

  -- What waits can be withdrawn after its cooldown, paused or not, when the accounts are those of the
  -- position's owner and of the config, and the token program makes the transfer.
  pub unstake_complete :
      (ctx : UnstakeCtx) (t : T)
      → ctx.config.synthetic_mint ≡ ctx.synthetic_mint
      → ctx.token_program ≡ ctx.config.token_program
      → ctx.position.owner ≡ ctx.owner
      → ctx.owner_synthetic.mint ≡ ctx.synthetic_mint
      → ctx.owner_synthetic.authority ≡ ctx.owner
      → 0 < ctx.position.pending_unstake
      → ctx.position.cooldown_end ≤ℤ clock.unix_timestamp
      → rt.transfer_checked tokens
          (vault stake_vault)
          ctx.synthetic_mint
          (wallet ctx.owner_synthetic)
          rt.config_key
          ctx.position.pending_unstake
          (rt.mint_account tokens ctx.synthetic_mint).decimals
        ≡ some t
      → (d : Done T StakePosition Unstaked) × (unstake rt tokens clock ctx ≡ ok d)
        × (d.tokens ≡ t)
        × (d.config ≡ ctx.config)
  unfolding unstake unstake_accounts
  unstake_complete ctx t a b c e f waiting cooled moved =
      elim (Result-cases (unstake rt tokens clock ctx)) [
        | inl (d, k) ↦ (d, k, ground arith, ground arith)
        | inr (fault, k) ↦ ground arith
      ]
