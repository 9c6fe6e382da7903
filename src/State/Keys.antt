-- ===== src/State/Keys.antt =====
-- Public keys and digests: 32 bytes, read as one number. `Pubkey::default()` and `[0u8; 32]` are 0.
use plott.Common.{ℕ}

abbrev pub Pubkey : Type 0
Pubkey = ℕ

abbrev pub Hash : Type 0
Hash = ℕ

abbrev pub default_key : Pubkey
default_key = 0

abbrev pub zero_hash : Hash
zero_hash = 0
