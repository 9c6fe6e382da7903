-- ===== src/Runtime/Calls.antt =====
-- How a handler checks a caller's token account, and calls the token program. A failed call aborts.
use plott.Common.{ℕ, ◌==◌, Result, ◌>>◌, constraint, token_constraint, ok_or, token_program_error}
use plott.State.Keys.{Pubkey}
use plott.Runtime.Defs.{Runtime, Wallet, TokenAccount, Vault, vault, wallet}

-- `token::mint = m, token::authority = a`
unfoldable pub owned_wallet : Wallet → Pubkey → Pubkey → Result (Unit {0})
owned_wallet w m a = do
  constraint (w.mint == m) token_constraint
  constraint (w.authority == a) token_constraint

module _ {T : Type 0} (rt : Runtime T) where
  -- `transfer_checked` from a caller's account into a vault, signed by the caller.
  abbrev pub deposit : T → Wallet → Pubkey → Vault → Pubkey → ℕ → Result T
  deposit tokens source mint destination signer amount =
      ok_or
        (rt.transfer_checked tokens (wallet source) mint (vault destination) signer amount
          (rt.mint_account tokens mint).decimals)
        token_program_error

  -- `transfer_checked` from a vault to a caller's account or to another vault, signed by the config.
  abbrev pub withdraw : T → Vault → Pubkey → TokenAccount → ℕ → Result T
  withdraw tokens source mint destination amount =
      ok_or
        (rt.transfer_checked tokens (vault source) mint destination rt.config_key amount
          (rt.mint_account tokens mint).decimals)
        token_program_error
