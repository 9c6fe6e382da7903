-- ===== src/Proof/Tamper.antt =====
-- What the digest of a proof commits to (programs/poyz/src/instructions/proof.rs): its input, at the widths of
-- the fields, determines every field.
use plott.Common.{ℕ, zero, suc, ◌-◌, ◌/◌, ◌%◌, ◌^◌, ◌<◌, ◌≡◌, List, [], ◌∷◌, ◌++◌, arith}
use plott.Common.Int.{ℤ, pos, negsuc, ◌≤ℤ◌}
use plott.State.{RebalanceProof}
use plott.State.Keys.{Pubkey}
use plott.Proof.Preimage.{le_bytes, pattern_of, preimage}
use plott.Proof.Chain.{preimage_of}

-- SHA-256 reads the slices one after the other.
unfoldable pub join : List (List ℕ) → List ℕ
join [] = []
join (x ∷ xs) = x ++ join xs

-- The bytes of a number of a fixed width can be taken off the front.
pub le_bytes-++ :
    (n x y : ℕ) (r s : List ℕ)
    → x < 256 ^ n
    → y < 256 ^ n
    → le_bytes n x ++ r ≡ le_bytes n y ++ s
    → (x ≡ y) × (r ≡ s)
unfolding le_bytes
le_bytes-++ zero x y r s hx hy h = (omega arith, h)
le_bytes-++ (suc n) x y r s hx hy h =
    let (e, t) = le_bytes-++ n (x / 256) (y / 256) r s (grind arith) (grind arith) cc in
    let low : x % 256 ≡ y % 256 = cc in (omega (arith, e, low), t)

-- A signed value of the type with `w + 1` bits.
abbrev pub IsSigned : ℕ → ℤ → Type 0
IsSigned w x = (negsuc (2 ^ w - 1) ≤ℤ x) × (x ≤ℤ pos (2 ^ w - 1))

i64_pattern : (x : ℤ) → IsSigned 63 x → pattern_of 64 x < 256 ^ 8
i64_pattern x h = ground arith

i32_pattern : (x : ℤ) → IsSigned 31 x → pattern_of 32 x < 256 ^ 4
i32_pattern x h = ground arith

i64_pattern-inj :
    (x y : ℤ) → IsSigned 63 x → IsSigned 63 y → pattern_of 64 x ≡ pattern_of 64 y → x ≡ y
i64_pattern-inj x y h k e = ground arith

i32_pattern-inj :
    (x y : ℤ) → IsSigned 31 x → IsSigned 31 y → pattern_of 32 x ≡ pattern_of 32 y → x ≡ y
i32_pattern-inj x y h k e = ground arith

-- The fields that the digest covers, each within the range of its type.
pub record IsRanged (p : RebalanceProof) : Type 0 where
  pub keeper : p.keeper < 256 ^ 32
  pub venues_hash : p.venues_hash < 256 ^ 32
  pub prev_hash : p.prev_hash < 256 ^ 32
  pub sequence : p.sequence < 256 ^ 8
  pub slot : p.slot < 256 ^ 8
  pub oracle_price : IsSigned 63 p.oracle_price
  pub oracle_conf : p.oracle_conf < 256 ^ 8
  pub oracle_expo : IsSigned 31 p.oracle_expo
  pub oracle_publish_time : IsSigned 63 p.oracle_publish_time
  pub collateral_notional : p.collateral_notional < 256 ^ 8
  pub hedged_notional : p.hedged_notional < 256 ^ 8
  pub delta_bps_before : IsSigned 31 p.delta_bps_before
  pub delta_bps_after : IsSigned 31 p.delta_bps_after

-- Two proof accounts of one config whose digests are taken over the same bytes record the same keeper,
-- venues, link, sequence, slot, price, book, hedge and deviations. What the digest leaves open is the
-- timestamp and the slot at which the oracle's update was posted.
pub preimage-inj :
    (config : Pubkey) (p q : RebalanceProof)
    → config < 256 ^ 32
    → IsRanged p
    → IsRanged q
    → join (preimage_of config p) ≡ join (preimage_of config q)
    → p ≡ record q {
      this_hash = p.this_hash;
      oracle_posted_slot = p.oracle_posted_slot;
      timestamp = p.timestamp;
    }
unfolding preimage join le_bytes
preimage-inj config p q c a b h =
    let (e0, h0) = le_bytes-++ 32 p.prev_hash q.prev_hash _ _ a.prev_hash b.prev_hash h in
    let (e1, h1) = le_bytes-++ 32 config config _ _ c c h0 in
    let (e2, h2) = le_bytes-++ 8 p.sequence q.sequence _ _ a.sequence b.sequence h1 in
    let (e3, h3) = le_bytes-++ 8 p.slot q.slot _ _ a.slot b.slot h2 in
    let (e4, h4) =
      le_bytes-++ 8 (pattern_of 64 p.oracle_price) (pattern_of 64 q.oracle_price) _ _
        (i64_pattern p.oracle_price a.oracle_price) (i64_pattern q.oracle_price b.oracle_price)
        h3 in
    let (e5, h5) = le_bytes-++ 8 p.oracle_conf q.oracle_conf _ _ a.oracle_conf b.oracle_conf h4 in
    let (e6, h6) =
      le_bytes-++ 4 (pattern_of 32 p.oracle_expo) (pattern_of 32 q.oracle_expo) _ _
        (i32_pattern p.oracle_expo a.oracle_expo) (i32_pattern q.oracle_expo b.oracle_expo) h5 in
    let (e7, h7) =
      le_bytes-++ 8 (pattern_of 64 p.oracle_publish_time) (pattern_of 64 q.oracle_publish_time) _ _
        (i64_pattern p.oracle_publish_time a.oracle_publish_time)
        (i64_pattern q.oracle_publish_time b.oracle_publish_time) h6 in
    let (e8, h8) =
      le_bytes-++ 8 p.collateral_notional q.collateral_notional _ _ a.collateral_notional
        b.collateral_notional h7 in
    let (e9, h9) =
      le_bytes-++ 8 p.hedged_notional q.hedged_notional _ _ a.hedged_notional b.hedged_notional
        h8 in
    let (e10, h10) =
      le_bytes-++ 4 (pattern_of 32 p.delta_bps_before) (pattern_of 32 q.delta_bps_before) _ _
        (i32_pattern p.delta_bps_before a.delta_bps_before)
        (i32_pattern q.delta_bps_before b.delta_bps_before) h9 in
    let (e11, h11) =
      le_bytes-++ 4 (pattern_of 32 p.delta_bps_after) (pattern_of 32 q.delta_bps_after) _ _
        (i32_pattern p.delta_bps_after a.delta_bps_after)
        (i32_pattern q.delta_bps_after b.delta_bps_after) h10 in
    let e12 : p.venue_id ≡ q.venue_id = cc in
    let h12 : le_bytes 32 p.venues_hash ++ le_bytes 32 p.keeper ++ []
        ≡ le_bytes 32 q.venues_hash ++ le_bytes 32 q.keeper ++ [] =
      cc in
    let (e13, h13) =
      le_bytes-++ 32 p.venues_hash q.venues_hash _ _ a.venues_hash b.venues_hash h12 in
    let (e14, h14) = le_bytes-++ 32 p.keeper q.keeper _ _ a.keeper b.keeper h13 in
    let x4 = i64_pattern-inj p.oracle_price q.oracle_price a.oracle_price b.oracle_price e4 in
    let x6 = i32_pattern-inj p.oracle_expo q.oracle_expo a.oracle_expo b.oracle_expo e6 in
    let x7 =
      i64_pattern-inj p.oracle_publish_time q.oracle_publish_time a.oracle_publish_time
        b.oracle_publish_time e7 in
    let x10 =
      i32_pattern-inj p.delta_bps_before q.delta_bps_before a.delta_bps_before b.delta_bps_before
        e10 in
    let x11 =
      i32_pattern-inj p.delta_bps_after q.delta_bps_after a.delta_bps_after b.delta_bps_after e11 in
    cc
