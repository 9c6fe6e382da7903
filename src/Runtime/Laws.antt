-- ===== src/Runtime/Laws.antt =====
-- What the token program promises (the documented behaviour of `TransferChecked`, `MintTo` and `Burn`
-- on mints with no transfer fee): the named hypotheses of the theorems about balances.
use plott.Common.{ℕ, ◌+◌, ◌≡◌, ◌≢◌, some}
use plott.State.Keys.{Pubkey}
use plott.Runtime.Defs.{Runtime, TokenAccount}

module _ {T : Type 0} (rt : Runtime T) where
  -- A transfer takes the amount from the source, which holds it, and gives it to the destination.
  pub record Transferred (t t' : T) (source destination : TokenAccount) (amount : ℕ) : Type 0 where
    pub debited : rt.balance t source ≡ rt.balance t' source + amount
    pub credited : rt.balance t' destination ≡ rt.balance t destination + amount
    pub others :
        (a : TokenAccount) → a ≢ source → a ≢ destination → rt.balance t' a ≡ rt.balance t a
    pub supplies : (m : Pubkey) → rt.supply t' m ≡ rt.supply t m

  pub record TokenLaws : Type 0 where
    pub transfers :
        (t t' : T) (source destination : TokenAccount) (mint authority : Pubkey)
        (amount decimals : ℕ)
        → rt.transfer_checked t source mint destination authority amount decimals ≡ some t'
        → source ≢ destination
        → Transferred t t' source destination amount
    pub mints :
        (t t' : T) (mint authority : Pubkey) (a : TokenAccount) (amount : ℕ)
        → rt.mint_to t mint a authority amount ≡ some t'
        → (rt.balance t' a ≡ rt.balance t a + amount)
          × ((b : TokenAccount) → b ≢ a → rt.balance t' b ≡ rt.balance t b)
          × (rt.supply t' mint ≡ rt.supply t mint + amount)
    pub burns :
        (t t' : T) (mint authority : Pubkey) (a : TokenAccount) (amount : ℕ)
        → rt.burn t mint a authority amount ≡ some t'
        → (rt.balance t a ≡ rt.balance t' a + amount)
          × ((b : TokenAccount) → b ≢ a → rt.balance t' b ≡ rt.balance t b)
          × (rt.supply t mint ≡ rt.supply t' mint + amount)
