-- ===== src/State/Limits.antt =====
-- The bounds that the code enforces, and the flags of the vault groups (programs/poyz/src/state.rs).
use plott.Common.{ℕ, ◌+◌}

abbrev pub max_delta_band_bps : ℕ
max_delta_band_bps = 2_000

abbrev pub max_price_age_sec_limit : ℕ
max_price_age_sec_limit = 3_600

abbrev pub max_fee_bps : ℕ
max_fee_bps = 500

abbrev pub min_collateral_ratio_bps : ℕ
min_collateral_ratio_bps = 10_000

abbrev pub max_collateral_ratio_bps : ℕ
max_collateral_ratio_bps = 50_000

abbrev pub max_mint_decimals : ℕ
max_mint_decimals = 9

abbrev pub vault_flag_collateral : ℕ
vault_flag_collateral = 1

abbrev pub vault_flag_bond : ℕ
vault_flag_bond = 2

abbrev pub vault_flag_funding : ℕ
vault_flag_funding = 4

abbrev pub vault_flag_stake : ℕ
vault_flag_stake = 8

-- The four flags have no bit in common, so that `|` is a sum.
abbrev pub vault_flags_all : ℕ
vault_flags_all = vault_flag_collateral + vault_flag_bond + vault_flag_funding + vault_flag_stake

abbrev pub slash_reason_delta_out_of_band : ℕ
slash_reason_delta_out_of_band = 1

abbrev slash_reason_false_proof : ℕ
slash_reason_false_proof = 5

abbrev pub slash_reason_max : ℕ
slash_reason_max = slash_reason_false_proof
