-- ===== src/Program/Owed.antt =====
-- What the program owes at each of its vaults (programs/poyz/src/state.rs and
-- programs/poyz/src/instructions/vaults.rs): what the config counts there and, at the stake vault, the
-- principal of the positions.
pub mod Steps
use plott.Common.{ℕ, zero, suc, ok, ◌+◌, ◌≤◌, ◌≡◌, ◌≢◌, ◌⊎◌, inl, inr, sym, some, arith, List}
use plott.State.{StakePosition}
use plott.State.Keys.{Pubkey}
use plott.State.Ledger.{Ledger, ledger_of}
use plott.Runtime.{
  Runtime, Vault, Wallet, vault, wallet, collateral_vault, bond_vault, buffer_bond_vault,
  funding_vault, buffer_vault, stake_vault, redeem_escrow,
}
use plott.Runtime.Laws.{TokenLaws}
use plott.Funding.Stakes.{principal}
use plott.Funding.Accounts.{SettleFundingCtx}
use plott.Funding.Paid.{pay_in}
use plott.Program.Store.{total}
use plott.Program.World.{World}

abbrev pub principals : List StakePosition → ℕ
principals positions = total principal positions

abbrev pub owed : Ledger → ℕ → Vault → ℕ
owed l staked collateral_vault = l.total_collateral + l.pending_collateral
owed l staked bond_vault = l.bonded_total
owed l staked buffer_bond_vault = l.slashed_total
owed l staked funding_vault = l.staker_funding_balance
owed l staked buffer_vault = l.buffer_balance
owed l staked stake_vault = staked
owed l staked redeem_escrow = l.pending_redeem_synthetic

abbrev pub owed_by : {T : Type 0} → World T → Vault → ℕ
owed_by w v = owed (ledger_of w.config) (principals w.positions) v

-- An amount at one vault, and nothing at the others.
abbrev pub share : Vault → ℕ → Vault → ℕ
share collateral_vault n collateral_vault = n
share bond_vault n bond_vault = n
share buffer_bond_vault n buffer_bond_vault = n
share funding_vault n funding_vault = n
share buffer_vault n buffer_vault = n
share stake_vault n stake_vault = n
share redeem_escrow n redeem_escrow = n
share _ _ _ = 0

vault_cases : (a b : Vault) → (a ≡ b) ⊎ (vault a ≢ vault b)
vault_cases a b = ground arith

share_self : (a : Vault) (n : ℕ) → share a n a ≡ n
share_self a n = ground arith

share_other : (a b : Vault) (n : ℕ) → vault a ≢ vault b → share a n b ≡ 0
share_other a b n apart = ground (arith, apart)

module _ {T : Type 0} (rt : Runtime T) (laws : TokenLaws rt) (t t' : T) where
  -- What a transfer into a vault, out of one, and from one to another does to all the vaults.
  pub deposited :
      (source : Wallet) (mint signer : Pubkey) (into : Vault) (amount decimals : ℕ)
      → rt.transfer_checked t (wallet source) mint (vault into) signer amount decimals ≡ some t'
      → (v : Vault) → rt.balance t' (vault v) ≡ rt.balance t (vault v) + share into amount v
  deposited source mint signer into amount decimals h v =
      let m =
        laws.transfers t t' (wallet source) (vault into) mint signer amount decimals h (λ e. cc) in
      elim (vault_cases into v) [
        | inl e ↦ rw (← e) (omega (arith, m.credited, share_self into amount))
        | inr apart ↦ omega (
          arith,
          m.others (vault v) (λ e. cc) (λ e. apart (sym e)),
          share_other into v amount apart,
        )
      ]

  pub withdrawn :
      (destination : Wallet) (mint signer : Pubkey) (from : Vault) (amount decimals : ℕ)
      → rt.transfer_checked t (vault from) mint (wallet destination) signer amount decimals
        ≡ some t'
      → (v : Vault) → rt.balance t (vault v) ≡ rt.balance t' (vault v) + share from amount v
  withdrawn destination mint signer from amount decimals h v =
      let m =
        laws.transfers t t' (vault from) (wallet destination) mint signer amount decimals h
          (λ e. cc) in
      elim (vault_cases from v) [
        | inl e ↦ rw (← e) (omega (arith, m.debited, share_self from amount))
        | inr apart ↦ omega (
          arith,
          m.others (vault v) (λ e. apart (sym e)) (λ e. cc),
          share_other from v amount apart,
        )
      ]

  pub moved :
      (from into : Vault) (mint signer : Pubkey) (amount decimals : ℕ)
      → rt.transfer_checked t (vault from) mint (vault into) signer amount decimals ≡ some t'
      → vault from ≢ vault into
      → (v : Vault)
      → rt.balance t' (vault v) + share from amount v ≡ rt.balance t (vault v) + share into amount v
  moved from into mint signer amount decimals h apart v =
      let m = laws.transfers t t' (vault from) (vault into) mint signer amount decimals h apart in
      elim (vault_cases from v) [
        | inl e ↦ rw (← e) (
            omega (
              arith,
              m.debited,
              share_self from amount,
              share_other into from amount (λ e. apart (sym e)),
            ))
        | inr off ↦ elim (vault_cases into v) [
          | inl e ↦ rw (← e) (
              omega (arith, m.credited, share_self into amount, share_other from into amount apart))
          | inr off' ↦ omega (
            arith,
            m.others (vault v) (λ e. off (sym e)) (λ e. off' (sym e)),
            share_other into v amount off',
            share_other from v amount off,
          )
        ]
      ]

  pub minted :
      (mint signer : Pubkey) (a : Wallet) (amount : ℕ)
      → rt.mint_to t mint (wallet a) signer amount ≡ some t'
      → (v : Vault) → rt.balance t' (vault v) ≡ rt.balance t (vault v)
  minted mint signer a amount h v =
      (laws.mints t t' mint signer (wallet a) amount h).1 (vault v) (λ e. cc)

  pub burned :
      (mint signer : Pubkey) (from : Vault) (amount : ℕ)
      → rt.burn t mint (vault from) signer amount ≡ some t'
      → (v : Vault) → rt.balance t (vault v) ≡ rt.balance t' (vault v) + share from amount v
  burned mint signer from amount h v =
      let (gone, others, supply) = laws.burns t t' mint signer (vault from) amount h in
      elim (vault_cases from v) [
        | inl e ↦ rw (← e) (omega (arith, gone, share_self from amount))
        | inr apart ↦
            omega (arith, others (vault v) (λ e. apart (sym e)), share_other from v amount apart)
      ]

  -- A deposit that is skipped at 0.
  pub paid_in :
      (ctx : SettleFundingCtx) (into : Vault) (part : ℕ)
      → pay_in rt ctx t into part ≡ ok t'
      → (v : Vault) → rt.balance t' (vault v) ≡ rt.balance t (vault v) + share into part v
  paid_in ctx into zero h v = ground arith
  paid_in ctx into (suc n) h v =
      deposited ctx.authority_synthetic ctx.synthetic_mint ctx.authority into (suc n)
        (rt.mint_account t ctx.synthetic_mint).decimals (ground arith) v
