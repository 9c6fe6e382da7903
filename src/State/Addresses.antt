-- ===== src/State/Addresses.antt =====
-- The addresses of the program's accounts (the seeds of programs/poyz/src/state.rs, and the `seeds` of every
-- context). An address is a digest of the seeds' bytes, one after the other, which is the runtime's;
-- numbers in seeds are little-endian.
pub mod Distinct
use plott.Common.{ℕ, List, [], ◌∷◌}
use plott.State.Keys.{Pubkey}
use plott.Proof.Preimage.{le_bytes}

-- "config"
abbrev pub config_seed : List ℕ
config_seed = 99 ∷ 111 ∷ 110 ∷ 102 ∷ 105 ∷ 103 ∷ []

-- "collateral_vault"
abbrev pub collateral_vault_seed : List ℕ
collateral_vault_seed =
    99 ∷ 111 ∷ 108 ∷ 108 ∷ 97 ∷ 116 ∷ 101 ∷ 114 ∷ 97 ∷ 108 ∷ 95 ∷ 118 ∷ 97 ∷ 117 ∷ 108 ∷ 116 ∷ []

-- "bond_vault"
abbrev pub bond_vault_seed : List ℕ
bond_vault_seed = 98 ∷ 111 ∷ 110 ∷ 100 ∷ 95 ∷ 118 ∷ 97 ∷ 117 ∷ 108 ∷ 116 ∷ []

-- "buffer_bond_vault"
abbrev pub buffer_bond_vault_seed : List ℕ
buffer_bond_vault_seed =
    98 ∷ 117 ∷ 102 ∷ 102 ∷ 101 ∷ 114 ∷ 95 ∷ 98 ∷ 111 ∷ 110 ∷ 100 ∷ 95 ∷ 118 ∷ 97 ∷ 117 ∷ 108 ∷ 116
    ∷ []

-- "funding_vault"
abbrev pub funding_vault_seed : List ℕ
funding_vault_seed = 102 ∷ 117 ∷ 110 ∷ 100 ∷ 105 ∷ 110 ∷ 103 ∷ 95 ∷ 118 ∷ 97 ∷ 117 ∷ 108 ∷ 116 ∷ []

-- "buffer_vault"
abbrev pub buffer_vault_seed : List ℕ
buffer_vault_seed = 98 ∷ 117 ∷ 102 ∷ 102 ∷ 101 ∷ 114 ∷ 95 ∷ 118 ∷ 97 ∷ 117 ∷ 108 ∷ 116 ∷ []

-- "stake_vault"
abbrev pub stake_vault_seed : List ℕ
stake_vault_seed = 115 ∷ 116 ∷ 97 ∷ 107 ∷ 101 ∷ 95 ∷ 118 ∷ 97 ∷ 117 ∷ 108 ∷ 116 ∷ []

-- "redeem_escrow"
abbrev pub redeem_escrow_seed : List ℕ
redeem_escrow_seed = 114 ∷ 101 ∷ 100 ∷ 101 ∷ 101 ∷ 109 ∷ 95 ∷ 101 ∷ 115 ∷ 99 ∷ 114 ∷ 111 ∷ 119 ∷ []

-- "keeper"
abbrev pub keeper_seed : List ℕ
keeper_seed = 107 ∷ 101 ∷ 101 ∷ 112 ∷ 101 ∷ 114 ∷ []

-- "mint_request"
abbrev pub mint_request_seed : List ℕ
mint_request_seed = 109 ∷ 105 ∷ 110 ∷ 116 ∷ 95 ∷ 114 ∷ 101 ∷ 113 ∷ 117 ∷ 101 ∷ 115 ∷ 116 ∷ []

-- "redeem_request"
abbrev pub redeem_request_seed : List ℕ
redeem_request_seed =
    114 ∷ 101 ∷ 100 ∷ 101 ∷ 101 ∷ 109 ∷ 95 ∷ 114 ∷ 101 ∷ 113 ∷ 117 ∷ 101 ∷ 115 ∷ 116 ∷ []

-- "proof"
abbrev pub rebalance_proof_seed : List ℕ
rebalance_proof_seed = 112 ∷ 114 ∷ 111 ∷ 111 ∷ 102 ∷ []

-- "stake"
abbrev pub stake_position_seed : List ℕ
stake_position_seed = 115 ∷ 116 ∷ 97 ∷ 107 ∷ 101 ∷ []

pub data Address : Type 0 where
  config bond_vault buffer_bond_vault funding_vault buffer_vault stake_vault redeem_escrow : Address
  collateral_vault keeper stake_position : Pubkey → Address
  mint_request redeem_request : Pubkey → ℕ → Address
  rebalance_proof : ℕ → Address

unfoldable pub seeds : Address → List (List ℕ)
seeds config = config_seed ∷ []
seeds (collateral_vault mint) = collateral_vault_seed ∷ le_bytes 32 mint ∷ []
seeds bond_vault = bond_vault_seed ∷ []
seeds buffer_bond_vault = buffer_bond_vault_seed ∷ []
seeds funding_vault = funding_vault_seed ∷ []
seeds buffer_vault = buffer_vault_seed ∷ []
seeds stake_vault = stake_vault_seed ∷ []
seeds redeem_escrow = redeem_escrow_seed ∷ []
seeds (keeper key) = keeper_seed ∷ le_bytes 32 key ∷ []
seeds (mint_request user nonce) = mint_request_seed ∷ le_bytes 32 user ∷ le_bytes 8 nonce ∷ []
seeds (redeem_request user nonce) = redeem_request_seed ∷ le_bytes 32 user ∷ le_bytes 8 nonce ∷ []
seeds (rebalance_proof sequence) = rebalance_proof_seed ∷ le_bytes 8 sequence ∷ []
seeds (stake_position owner) = stake_position_seed ∷ le_bytes 32 owner ∷ []
