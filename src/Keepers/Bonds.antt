-- ===== src/Keepers/Bonds.antt =====
-- Where the bonds of programs/poyz/src/instructions/keeper.rs go, and when they can leave.
use plott.Common.{ℕ, ◌+◌, ◌≤◌, ◌≡◌, ◌≢◌, ◌⊎◌, some, ok, arith}
use plott.Common.Int.{pos, ◌≤ℤ◌, ◌-ℤ◌}
use plott.State.{Keeper}
use plott.State.Keys.{Hash, zero_hash}
use plott.Runtime.{Runtime, Clock, Done, Wallet, vault, wallet, bond_vault, buffer_bond_vault}
use plott.Runtime.Laws.{TokenLaws}
use plott.Events.Keepers.{KeeperBonded, KeeperUnbonded, KeeperSlashed}
use plott.Keepers.Accounts.{
  KeeperBondCtx, KeeperSlashCtx, keeper_bond_accounts, keeper_slash_accounts,
}
use plott.Keepers.{check_cooldown, set_active, keeper_bond, keeper_unbond, keeper_slash}

module _ {T : Type 0} (rt : Runtime T) (tokens : T) (clock : Clock) where
  pub slash_transfer :
      (ctx : KeeperSlashCtx) (amount reason : ℕ) (evidence : Hash) (d : Done T Keeper KeeperSlashed)
      → keeper_slash rt tokens clock ctx amount reason evidence ≡ ok d
      → rt.transfer_checked tokens
          (vault bond_vault)
          ctx.bond_mint
          (vault buffer_bond_vault)
          rt.config_key
          amount
          (rt.mint_account tokens ctx.bond_mint).decimals
        ≡ some d.tokens
  unfolding keeper_slash
  slash_transfer ctx amount reason evidence d h = ground arith

  slash_facts :
      (ctx : KeeperSlashCtx) (amount reason : ℕ) (evidence : Hash) (d : Done T Keeper KeeperSlashed)
      → keeper_slash rt tokens clock ctx amount reason evidence ≡ ok d
      → (ctx.authority ≡ ctx.config.authority)
        × (d.account.bonded + amount ≡ ctx.keeper_account.bonded)
        × (d.config.bonded_total + amount ≡ ctx.config.bonded_total)
        × (d.config.slashed_total ≡ ctx.config.slashed_total + amount)
        × (evidence ≢ zero_hash)
        × (1 ≤ reason)
        × (reason ≤ 5)
  unfolding keeper_slash keeper_slash_accounts set_active
  slash_facts ctx amount reason evidence d h = ground arith

  -- With a token program that keeps its promises (Runtime/Laws): a slash is the authority's, names
  -- evidence and a known reason, and takes at most the keeper's bond. The amount leaves the keeper's bond and the bond vault for the
  -- buffer's bond vault, the balance of no caller's account changes, and both vaults move exactly
  -- as the config's totals.
  pub keeper_slash-vaults :
      (ctx : KeeperSlashCtx) (amount reason : ℕ) (evidence : Hash) (d : Done T Keeper KeeperSlashed)
      → keeper_slash rt tokens clock ctx amount reason evidence ≡ ok d
      → TokenLaws rt
      → (ctx.authority ≡ ctx.config.authority)
        × (evidence ≢ zero_hash)
        × (1 ≤ reason)
        × (reason ≤ 5)
        × (d.account.bonded + amount ≡ ctx.keeper_account.bonded)
        × (rt.balance tokens (vault bond_vault) ≡ rt.balance d.tokens (vault bond_vault) + amount)
        × (rt.balance d.tokens (vault buffer_bond_vault)
            ≡ rt.balance tokens (vault buffer_bond_vault) + amount)
        × (rt.balance d.tokens (vault bond_vault) + ctx.config.bonded_total
            ≡ rt.balance tokens (vault bond_vault) + d.config.bonded_total)
        × (rt.balance d.tokens (vault buffer_bond_vault) + ctx.config.slashed_total
            ≡ rt.balance tokens (vault buffer_bond_vault) + d.config.slashed_total)
        × ((w : Wallet) → rt.balance d.tokens (wallet w) ≡ rt.balance tokens (wallet w))
  keeper_slash-vaults ctx amount reason evidence d h laws =
      let (owner, bonded, total, slashed, named, low, high) =
        slash_facts ctx amount reason evidence d h in
      let m =
        laws.transfers tokens d.tokens (vault bond_vault) (vault buffer_bond_vault) ctx.bond_mint
          rt.config_key amount (rt.mint_account tokens ctx.bond_mint).decimals
          (slash_transfer ctx amount reason evidence d h) (λ e. cc) in
      (
        owner,
        named,
        low,
        high,
        bonded,
        m.debited,
        m.credited,
        omega (arith, m.debited, total),
        omega (arith, m.credited, slashed),
        λ w. m.others (wallet w) (λ e. cc) (λ e. cc),
      )

  pub bond_moved :
      (ctx : KeeperBondCtx) (amount : ℕ) (d : Done T Keeper KeeperBonded)
      → keeper_bond rt tokens clock ctx amount ≡ ok d
      → (rt.transfer_checked tokens
            (wallet ctx.keeper_bond_wallet)
            ctx.bond_mint
            (vault bond_vault)
            ctx.keeper
            amount
            (rt.mint_account tokens ctx.bond_mint).decimals
          ≡ some d.tokens)
        × (d.config.bonded_total ≡ ctx.config.bonded_total + amount)
  unfolding keeper_bond set_active
  bond_moved ctx amount d h = ground arith

  -- A bond that is added reaches the bond vault, which moves as the bonded total.
  pub keeper_bond-vault :
      (ctx : KeeperBondCtx) (amount : ℕ) (d : Done T Keeper KeeperBonded)
      → keeper_bond rt tokens clock ctx amount ≡ ok d
      → TokenLaws rt
      → rt.balance d.tokens (vault bond_vault) + ctx.config.bonded_total
        ≡ rt.balance tokens (vault bond_vault) + d.config.bonded_total
  keeper_bond-vault ctx amount d h laws =
      let (moved, total) = bond_moved ctx amount d h in
      let m =
        laws.transfers tokens d.tokens (wallet ctx.keeper_bond_wallet) (vault bond_vault)
          ctx.bond_mint ctx.keeper amount (rt.mint_account tokens ctx.bond_mint).decimals moved
          (λ e. cc) in
      omega (arith, m.credited, total)

  pub unbond_moved :
      (ctx : KeeperBondCtx) (amount : ℕ) (d : Done T Keeper KeeperUnbonded)
      → keeper_unbond rt tokens clock ctx amount ≡ ok d
      → (rt.transfer_checked tokens
            (vault bond_vault)
            ctx.bond_mint
            (wallet ctx.keeper_bond_wallet)
            rt.config_key
            amount
            (rt.mint_account tokens ctx.bond_mint).decimals
          ≡ some d.tokens)
        × (d.config.bonded_total + amount ≡ ctx.config.bonded_total)
        × (d.account.bonded + amount ≡ ctx.keeper_account.bonded)
        × (check_cooldown ctx.config ctx.keeper_account clock.unix_timestamp ≡ ok tt)
  unfolding keeper_unbond set_active
  unbond_moved ctx amount d h = ground arith

  unbond_left :
      (ctx : KeeperBondCtx) (amount : ℕ) (d : Done T Keeper KeeperUnbonded)
      → keeper_unbond rt tokens clock ctx amount ≡ ok d
      → (ctx.keeper_bond_wallet.authority ≡ ctx.keeper_account.keeper)
        × ((d.account.bonded ≡ 0) ⊎ (ctx.config.min_keeper_bond ≤ d.account.bonded))
  unfolding keeper_unbond keeper_bond_accounts set_active
  unbond_left ctx amount d h = ground arith

  cooled :
      (ctx : KeeperBondCtx)
      → check_cooldown ctx.config ctx.keeper_account clock.unix_timestamp ≡ ok tt
      → (ctx.keeper_account.last_proof_at ≤ℤ pos 0)
        ⊎ (pos ctx.config.unbond_cooldown_sec
            ≤ℤ clock.unix_timestamp -ℤ ctx.keeper_account.last_proof_at)
  unfolding check_cooldown
  cooled ctx h = ground arith

  -- With a token program that keeps its promises (Runtime/Laws): a bond leaves no earlier than the
  -- cooldown after the keeper's last proof, if it has one, from a keeper whose own account it is
  -- paid to, in full or down to no less than the minimum, and the bond vault moves exactly as the
  -- bonded total.
  pub keeper_unbond-vault :
      (ctx : KeeperBondCtx) (amount : ℕ) (d : Done T Keeper KeeperUnbonded)
      → keeper_unbond rt tokens clock ctx amount ≡ ok d
      → TokenLaws rt
      → (ctx.keeper_bond_wallet.authority ≡ ctx.keeper_account.keeper)
        × (d.account.bonded + amount ≡ ctx.keeper_account.bonded)
        × ((d.account.bonded ≡ 0) ⊎ (ctx.config.min_keeper_bond ≤ d.account.bonded))
        × ((ctx.keeper_account.last_proof_at ≤ℤ pos 0)
            ⊎ (pos ctx.config.unbond_cooldown_sec
                ≤ℤ clock.unix_timestamp -ℤ ctx.keeper_account.last_proof_at))
        × (rt.balance d.tokens (vault bond_vault) + ctx.config.bonded_total
            ≡ rt.balance tokens (vault bond_vault) + d.config.bonded_total)
  keeper_unbond-vault ctx amount d h laws =
      let (moved, total, bonded, cool) = unbond_moved ctx amount d h in
      let (own, left) = unbond_left ctx amount d h in
      let m =
        laws.transfers tokens d.tokens (vault bond_vault) (wallet ctx.keeper_bond_wallet)
          ctx.bond_mint rt.config_key amount (rt.mint_account tokens ctx.bond_mint).decimals moved
          (λ e. cc) in
      (own, bonded, left, cooled ctx cool, omega (arith, m.debited, total))
