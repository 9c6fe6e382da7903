-- ===== src/State/Addresses/Distinct.antt =====
-- That no two accounts of the program have the same seeds, however a caller chooses keys and nonces: neither
-- as lists nor as the bytes that the address is a digest of.
use plott.Common.{
  ℕ, ◌^◌, ◌<◌, ◌≡◌, ◌≢◌, refl, sym, ap, ◌∙◌, List, [], ◌∷◌, ◌++◌, arith, ◌==◌, if◌then◌else◌,
}
use plott.Proof.Preimage.{le_bytes}
use plott.Proof.Tamper.{join, le_bytes-++}
use plott.State.Addresses.{
  Address, seeds, config_seed, collateral_vault_seed, bond_vault_seed, buffer_bond_vault_seed,
  funding_vault_seed, buffer_vault_seed, stake_vault_seed, redeem_escrow_seed, keeper_seed,
  mint_request_seed, redeem_request_seed, rebalance_proof_seed, stake_position_seed,
}

-- An address taken apart: which account, its constant, its key and its number, with their widths.
abbrev kind : Address → ℕ
kind Address.config = 0
kind (Address.collateral_vault mint) = 1
kind Address.bond_vault = 2
kind Address.buffer_bond_vault = 3
kind Address.funding_vault = 4
kind Address.buffer_vault = 5
kind Address.stake_vault = 6
kind Address.redeem_escrow = 7
kind (Address.keeper key) = 8
kind (Address.mint_request user nonce) = 9
kind (Address.redeem_request user nonce) = 10
kind (Address.rebalance_proof sequence) = 11
kind (Address.stake_position owner) = 12

abbrev prefix_of : Address → List ℕ
prefix_of Address.config = config_seed
prefix_of (Address.collateral_vault mint) = collateral_vault_seed
prefix_of Address.bond_vault = bond_vault_seed
prefix_of Address.buffer_bond_vault = buffer_bond_vault_seed
prefix_of Address.funding_vault = funding_vault_seed
prefix_of Address.buffer_vault = buffer_vault_seed
prefix_of Address.stake_vault = stake_vault_seed
prefix_of Address.redeem_escrow = redeem_escrow_seed
prefix_of (Address.keeper key) = keeper_seed
prefix_of (Address.mint_request user nonce) = mint_request_seed
prefix_of (Address.redeem_request user nonce) = redeem_request_seed
prefix_of (Address.rebalance_proof sequence) = rebalance_proof_seed
prefix_of (Address.stake_position owner) = stake_position_seed

abbrev key_of : Address → ℕ
key_of Address.config = 0
key_of (Address.collateral_vault mint) = mint
key_of Address.bond_vault = 0
key_of Address.buffer_bond_vault = 0
key_of Address.funding_vault = 0
key_of Address.buffer_vault = 0
key_of Address.stake_vault = 0
key_of Address.redeem_escrow = 0
key_of (Address.keeper key) = key
key_of (Address.mint_request user nonce) = user
key_of (Address.redeem_request user nonce) = user
key_of (Address.rebalance_proof sequence) = 0
key_of (Address.stake_position owner) = owner

abbrev number_of : Address → ℕ
number_of Address.config = 0
number_of (Address.collateral_vault mint) = 0
number_of Address.bond_vault = 0
number_of Address.buffer_bond_vault = 0
number_of Address.funding_vault = 0
number_of Address.buffer_vault = 0
number_of Address.stake_vault = 0
number_of Address.redeem_escrow = 0
number_of (Address.keeper key) = 0
number_of (Address.mint_request user nonce) = nonce
number_of (Address.redeem_request user nonce) = nonce
number_of (Address.rebalance_proof sequence) = sequence
number_of (Address.stake_position owner) = 0

abbrev key_width : Address → ℕ
key_width Address.config = 0
key_width (Address.collateral_vault mint) = 32
key_width Address.bond_vault = 0
key_width Address.buffer_bond_vault = 0
key_width Address.funding_vault = 0
key_width Address.buffer_vault = 0
key_width Address.stake_vault = 0
key_width Address.redeem_escrow = 0
key_width (Address.keeper key) = 32
key_width (Address.mint_request user nonce) = 32
key_width (Address.redeem_request user nonce) = 32
key_width (Address.rebalance_proof sequence) = 0
key_width (Address.stake_position owner) = 32

abbrev number_width : Address → ℕ
number_width Address.config = 0
number_width (Address.collateral_vault mint) = 0
number_width Address.bond_vault = 0
number_width Address.buffer_bond_vault = 0
number_width Address.funding_vault = 0
number_width Address.buffer_vault = 0
number_width Address.stake_vault = 0
number_width Address.redeem_escrow = 0
number_width (Address.keeper key) = 0
number_width (Address.mint_request user nonce) = 8
number_width (Address.redeem_request user nonce) = 8
number_width (Address.rebalance_proof sequence) = 8
number_width (Address.stake_position owner) = 0

abbrev address_of : ℕ → ℕ → ℕ → Address
address_of i k n =
    if i == 0
    then Address.config
    else if i == 1
    then Address.collateral_vault k
    else if i == 2
    then Address.bond_vault
    else if i == 3
    then Address.buffer_bond_vault
    else if i == 4
    then Address.funding_vault
    else if i == 5
    then Address.buffer_vault
    else if i == 6
    then Address.stake_vault
    else if i == 7
    then Address.redeem_escrow
    else if i == 8
    then Address.keeper k
    else if i == 9
    then Address.mint_request k n
    else if i == 10
    then Address.redeem_request k n
    else if i == 11
    then Address.rebalance_proof n
    else Address.stake_position k

address_of_parts : (a : Address) → address_of (kind a) (key_of a) (number_of a) ≡ a
address_of_parts Address.config = refl
address_of_parts (Address.collateral_vault mint) = refl
address_of_parts Address.bond_vault = refl
address_of_parts Address.buffer_bond_vault = refl
address_of_parts Address.funding_vault = refl
address_of_parts Address.buffer_vault = refl
address_of_parts Address.stake_vault = refl
address_of_parts Address.redeem_escrow = refl
address_of_parts (Address.keeper key) = refl
address_of_parts (Address.mint_request user nonce) = refl
address_of_parts (Address.redeem_request user nonce) = refl
address_of_parts (Address.rebalance_proof sequence) = refl
address_of_parts (Address.stake_position owner) = refl

-- A key is 32 bytes and a number 8.
abbrev pub IsWide : Address → Type 0
IsWide a = (key_of a < 256 ^ key_width a) × (number_of a < 256 ^ number_width a)

abbrev tail_of : Address → List ℕ
tail_of a = le_bytes (key_width a) (key_of a) ++ (le_bytes (number_width a) (number_of a) ++ [])

seeds_lem : (a : Address) → join (seeds a) ≡ prefix_of a ++ tail_of a
unfolding seeds join le_bytes
seeds_lem Address.config = refl
seeds_lem (Address.collateral_vault mint) = refl
seeds_lem Address.bond_vault = refl
seeds_lem Address.buffer_bond_vault = refl
seeds_lem Address.funding_vault = refl
seeds_lem Address.buffer_vault = refl
seeds_lem Address.stake_vault = refl
seeds_lem Address.redeem_escrow = refl
seeds_lem (Address.keeper key) = refl
seeds_lem (Address.mint_request user nonce) = refl
seeds_lem (Address.redeem_request user nonce) = refl
seeds_lem (Address.rebalance_proof sequence) = refl
seeds_lem (Address.stake_position owner) = refl

seeds-kind : (a b : Address) → join (seeds a) ≡ join (seeds b) → kind a ≡ kind b
unfolding seeds join le_bytes
seeds-kind a b h = ground arith

kind-parts :
    (a b : Address)
    → kind a ≡ kind b
    → (prefix_of b ≡ prefix_of a) × (key_width b ≡ key_width a) × (number_width b ≡ number_width a)
kind-parts a b e = ground arith

cancel : (p r s : List ℕ) → p ++ r ≡ p ++ s → r ≡ s
cancel [] r s h = h
cancel (x ∷ p) r s h = cancel p r s cc

seeds-inj : (a b : Address) → IsWide a → IsWide b → join (seeds a) ≡ join (seeds b) → a ≡ b
seeds-inj a b wa wb h =
    let e = seeds-kind a b h in
    let (p, kw, nw) = kind-parts a b e in
    let h1 : prefix_of a ++ tail_of a ≡ prefix_of b ++ tail_of b =
      sym (seeds_lem a) ∙ h ∙ seeds_lem b in
    let h2 = cancel (prefix_of a) (tail_of a) (tail_of b) (h1 ∙ ap (λ x. x ++ tail_of b) p) in
    let h3 : tail_of a
        ≡ le_bytes (key_width a) (key_of b) ++ (le_bytes (number_width a) (number_of b) ++ []) =
      h2
      ∙ ap (λ x. le_bytes x (key_of b) ++ (le_bytes (number_width b) (number_of b) ++ [])) kw
      ∙ ap (λ x. le_bytes (key_width a) (key_of b) ++ (le_bytes x (number_of b) ++ [])) nw in
    let (k, h4) = le_bytes-++ (key_width a) (key_of a) (key_of b) _ _ wa.0 (rw (← kw) wb.0) h3 in
    let (n, h5) =
      le_bytes-++ (number_width a) (number_of a) (number_of b) [] [] wa.1 (rw (← nw) wb.1) h4 in
    sym (address_of_parts a) ∙ rw (e, k, n) (address_of_parts b)

-- Two different accounts, be it of different kinds, keys, users, owners, nonces or sequences, have different
-- seeds, also as the bytes one after the other that an address is a digest of: no choice of a key or
-- a nonce gives one account the bytes of another. A key is 32 bytes and a number 8.
pub seeds_distinct : (a b : Address) → IsWide a → IsWide b → a ≢ b → join (seeds a) ≢ join (seeds b)
seeds_distinct a b wa wb apart = λ h. apart (seeds-inj a b wa wb h)
