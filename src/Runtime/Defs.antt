-- ===== src/Runtime/Defs.antt =====
-- The interface to the code that the program calls (Solana, Anchor and the SPL token program), and
-- the shape of a handler's result.
use plott.Common.{ℕ, Bool, Option, List}
use plott.Common.Int.{ℤ}
use plott.State.Keys.{Pubkey, Hash}
use plott.State.{Config}
use plott.Pyth.{PriceUpdateV2}

-- The token accounts at program-derived addresses, whose authority is the config account.
pub data Vault : Type 0 where
  collateral_vault bond_vault buffer_bond_vault funding_vault buffer_vault stake_vault
        redeem_escrow :
      Vault

-- Any other token account, with the mint and the authority that it carries. A vault's authority is
-- a program-derived address, which signs nothing but the program's own calls: an account that the
-- caller passes for itself is never a vault.
pub record Wallet : Type 0 where
  pub address : Pubkey
  pub mint : Pubkey
  pub authority : Pubkey

pub data TokenAccount : Type 0 where
  vault : Vault → TokenAccount
  wallet : Wallet → TokenAccount

-- A mint account: which program owns it, and its data.
pub record MintAccount : Type 0 where
  pub owner : Pubkey
  pub decimals : ℕ
  pub mint_authority : Option Pubkey
  pub freeze_authority : Option Pubkey

-- `Clock::get()`
pub record Clock : Type 0 where
  pub slot : ℕ
  pub unix_timestamp : ℤ

-- `T` is the state of the token program: every mint and every token account.
pub record Runtime (T : Type 0) : Type 0 where
  -- `PriceUpdateV2::deserialize`, on the bytes behind the discriminator.
  pub deserialize : List ℕ → Option PriceUpdateV2
  -- `hashv`
  pub hashv : List (List ℕ) → Hash
  -- The addresses of the config account, of a user's requests and of a proof.
  pub config_key : Pubkey
  pub mint_request_key : Pubkey → ℕ → Pubkey
  pub redeem_request_key : Pubkey → ℕ → Pubkey
  pub proof_key : ℕ → Pubkey
  -- Whether a token account exists, holds tokens of a mint and is not frozen; a vault that is open is
  -- also under the authority of the config account.
  pub is_open : T → TokenAccount → Pubkey → Bool
  -- The token program: what a mint account, a balance and a supply read as, and its calls, where
  -- `none` is a failed call. `transfer_checked` takes the source, the mint, the destination, the
  -- authority, the amount and the decimals; the other two the mint, the account, the authority and
  -- the amount.
  pub mint_account : T → Pubkey → MintAccount
  pub balance : T → TokenAccount → ℕ
  pub supply : T → Pubkey → ℕ
  pub transfer_checked : T → TokenAccount → Pubkey → TokenAccount → Pubkey → ℕ → ℕ → Option T
  pub mint_to : T → Pubkey → TokenAccount → Pubkey → ℕ → Option T
  pub burn : T → Pubkey → TokenAccount → Pubkey → ℕ → Option T

-- What a handler leaves behind: the config account, the other accounts that it writes, the tokens,
-- and the event that it emits.
pub record Done (T A E : Type 0) : Type 0 where
  pub config : Config
  pub account : A
  pub tokens : T
  pub event : E
