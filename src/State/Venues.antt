-- ===== src/State/Venues.antt =====
-- The venue registry (programs/poyz/src/state.rs): which bit of `Config::venue_flags` enables a venue id.
use Prim.Native.Nat.{bit_and, bit_or}
use plott.Common.{
  ℕ, ◌^◌, ◌≤◌, ◌≡◌, refl, Bool, true, ◌&&◌, ◌||◌, not, ltb, ◌==◌, if◌then◌else◌, arith,
}

abbrev pub venue_none : ℕ
venue_none = 0

abbrev pub venue_velocity : ℕ
venue_velocity = 1

abbrev venue_jupiter_perps : ℕ
venue_jupiter_perps = 2

abbrev venue_adrena : ℕ
venue_adrena = 3

abbrev venue_flash_trade : ℕ
venue_flash_trade = 4

abbrev pub venue_id_max : ℕ
venue_id_max = venue_flash_trade

abbrev pub venue_simulated : ℕ
venue_simulated = 255

unfoldable pub venue_bit : ℕ → ℕ
venue_bit venue_id = if venue_id == venue_none || ltb venue_id_max venue_id then 0 else 2 ^ venue_id

unfoldable pub venue_flags_mask : ℕ
unfolding venue_bit
venue_flags_mask =
    bit_or
      (bit_or (bit_or (venue_bit venue_velocity) (venue_bit venue_jupiter_perps))
        (venue_bit venue_adrena))
      (venue_bit venue_flash_trade)

unfoldable pub venue_enabled_in : ℕ → ℕ → Bool
unfolding venue_bit
venue_enabled_in flags venue_id =
    let bit = venue_bit venue_id in not (bit == 0) && not (bit_and flags bit == 0)

mask : venue_flags_mask ≡ 30
unfolding venue_flags_mask
mask = refl

-- No flag word enables an id outside 1..=4: neither the unset id 0 nor the simulated venue 255.
pub venue_enabled_in-assignable :
    (flags venue_id : ℕ)
    → venue_enabled_in flags venue_id ≡ true
    → (1 ≤ venue_id) × (venue_id ≤ venue_id_max)
unfolding venue_enabled_in
venue_enabled_in-assignable flags venue_id h = ground arith
