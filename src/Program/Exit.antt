-- ===== src/Program/Exit.antt =====
-- That users can leave: in every world that the program can reach, whatever the pauses, parameters and venues,
-- an expired request can be cancelled and a stake that has cooled down be withdrawn.
pub mod Mint
pub mod Redeem
pub mod Unstake
use plott.Common.{ℕ, ◌+◌, ◌^◌, ◌≤◌, ◌<◌, ◌≡◌, true, some}
use plott.State.Keys.{Pubkey}
use plott.Runtime.{Runtime, Vault, Wallet, vault, wallet}

-- The documented behaviour of `TransferChecked`: out of a vault, with the config's signature and the
-- decimals of the mint, it succeeds where both accounts exist, hold tokens of the mint and are not
-- frozen, the vault covers the amount and the destination's balance stays within u64.
pub record Pays {T : Type 0} (rt : Runtime T) : Type 0 where
  pub pays :
      (t : T) (from : Vault) (to : Wallet) (mint : Pubkey) (amount : ℕ)
      → rt.is_open t (vault from) mint ≡ true
      → rt.is_open t (wallet to) mint ≡ true
      → amount ≤ rt.balance t (vault from)
      → rt.balance t (wallet to) + amount < 2 ^ 64
      → (t' : T) × (rt.transfer_checked t
            (vault from)
            mint
            (wallet to)
            rt.config_key
            amount
            (rt.mint_account t mint).decimals
          ≡ some t')
