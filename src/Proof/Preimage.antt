-- ===== src/Proof/Preimage.antt =====
-- The bytes that a proof's digest commits to (programs/poyz/src/instructions/proof.rs): the fields in
-- order, integers in little-endian two's complement at the width of their types.
use plott.Common.{ℕ, zero, suc, ◌-◌, ◌/◌, ◌%◌, ◌^◌, List, [], ◌∷◌}
use plott.Common.Int.{ℤ, pos, negsuc}
use plott.State.Keys.{Pubkey, Hash}
use plott.Pyth.{OraclePrice}

-- `to_le_bytes` at `n` bytes. A key or a digest, read as a number, is its own 32 bytes.
unfoldable pub le_bytes : ℕ → ℕ → List ℕ
le_bytes zero x = []
le_bytes (suc n) x = (x % 256) ∷ le_bytes n (x / 256)

-- The bit pattern of a signed integer at `w` bits.
abbrev pub pattern_of : ℕ → ℤ → ℕ
pattern_of w (pos n) = n
pattern_of w (negsuc n) = 2 ^ w - suc n

unfoldable pub preimage :
    Hash → Pubkey → ℕ → ℕ → OraclePrice → ℕ → ℕ → ℤ → ℤ → ℕ → Hash → Pubkey → List (List ℕ)
preimage prev_hash config sequence slot price collateral hedged before after venue_id venues_hash
      keeper =
    le_bytes 32 prev_hash
    ∷ le_bytes 32 config
    ∷ le_bytes 8 sequence
    ∷ le_bytes 8 slot
    ∷ le_bytes 8 (pattern_of 64 price.price)
    ∷ le_bytes 8 price.conf
    ∷ le_bytes 4 (pattern_of 32 price.expo)
    ∷ le_bytes 8 (pattern_of 64 price.publish_time)
    ∷ le_bytes 8 collateral
    ∷ le_bytes 8 hedged
    ∷ le_bytes 4 (pattern_of 32 before)
    ∷ le_bytes 4 (pattern_of 32 after)
    ∷ (venue_id ∷ [])
    ∷ le_bytes 32 venues_hash
    ∷ le_bytes 32 keeper
    ∷ []
