-- ===== src/Oracle/Gates.antt =====
-- Which price accounts `load_price` (programs/poyz/src/oracle.rs) accepts: exactly those that pass
-- every gate, each stated over the account itself and in exact arithmetic.
use plott.Common.{
  ℕ, ◌*◌, ◌^◌, ◌≤◌, ◌<◌, ◌≡◌, refl, ◌≢◌, Option-cases, List, [], ◌∷◌, ◌++◌, some, ok, arith, true,
  Result-cases, inl, inr, ap,
}
use plott.Common.Int.{ℤ, pos, pos_part, ◌≤ℤ◌, ◌-ℤ◌, -ℤ_parts}
use plott.Math.{confidence_bps}
use plott.Math.Delta.{confidence_bps-le_iff, confidence_bps_total}
use plott.State.Keys.{Pubkey, Hash}
use plott.Pyth.{AccountInfo, VerificationLevel, PriceUpdateV2, OraclePrice}
use plott.Runtime.{Runtime}
use plott.Oracle.{
  pyth_receiver_program_id, price_update_v2_discriminator, split_discriminator, bytes_eq, is_full,
  read_update, load_price,
}

split_discriminator-eq :
    (bytes d b : List ℕ) → split_discriminator bytes ≡ some (d, b) → (bytes ≡ d ++ b) × (b ≢ [])
unfolding split_discriminator
split_discriminator-eq (a ∷ b ∷ c ∷ d ∷ e ∷ f ∷ g ∷ h ∷ x ∷ body) p q k = ground arith
split_discriminator-eq _ p q k = ground arith

split_discriminator_complete :
    (body : List ℕ)
    → body ≢ []
    → split_discriminator (price_update_v2_discriminator ++ body)
      ≡ some (price_update_v2_discriminator, body)
unfolding split_discriminator
split_discriminator_complete [] h = absurd (h refl)
split_discriminator_complete (x ∷ b) h = refl

bytes_eq_sound : (a b : List ℕ) → bytes_eq a b ≡ true → a ≡ b
bytes_eq_sound [] [] h = refl
bytes_eq_sound [] (x ∷ b) h = ground arith
bytes_eq_sound (x ∷ a) [] h = ground arith
bytes_eq_sound (x ∷ a) (y ∷ b) h = ground (arith, bytes_eq_sound a b)

is_full-eq : (v : VerificationLevel) → is_full v ≡ true → v ≡ VerificationLevel.full
is_full-eq VerificationLevel.full h = refl
is_full-eq (VerificationLevel.partial n) h = ground arith

module _ {T : Type 0} (rt : Runtime T) where
  -- The account is owned by the receiver program, and holds the discriminator and an update.
  pub record IsGenuine (account : AccountInfo) (update : PriceUpdateV2) : Type 0 where
    pub owned : account.owner ≡ pyth_receiver_program_id
    pub body : List ℕ
    pub nonempty : body ≢ []
    pub layout : account.bytes ≡ price_update_v2_discriminator ++ body
    pub decoded : rt.deserialize body ≡ some update

  pub read_update-IsGenuine :
      (account : AccountInfo) (update : PriceUpdateV2)
      → read_update rt account ≡ ok update
      → IsGenuine account update
  unfolding read_update
  read_update-IsGenuine account update h = elim (Option-cases (split_discriminator account.bytes)) [
    | inl e ↦ ground arith
    | inr ((d, b), e) ↦
        let (layout, nonempty) = split_discriminator-eq account.bytes d b e in
        let same = bytes_eq_sound d price_update_v2_discriminator in
        record {
          owned = ground arith;
          body = b;
          nonempty = nonempty;
          layout = rw layout (ap (λ t. t ++ b) (same (ground arith)));
          decoded = ground arith;
        }
  ]

  read_update_complete :
      (account : AccountInfo) (update : PriceUpdateV2)
      → IsGenuine account update
      → read_update rt account ≡ ok update
  unfolding read_update
  read_update_complete account update g =
      ground
        (arith, g, ap split_discriminator g.layout, split_discriminator_complete g.body g.nonempty)

  -- Every gate, over the account and the configured bounds.
  pub record IsAccepted (account : AccountInfo) (expected_oracle : Pubkey) (expected_feed_id : Hash)
      (max_price_age_sec max_conf_bps : ℕ) (now : ℤ) (out : OraclePrice) : Type 0 where
    pub addressed : account.key ≡ expected_oracle
    pub update : PriceUpdateV2
    pub genuine : IsGenuine account update
    pub verified : update.verification_level ≡ VerificationLevel.full
    pub feed : update.price_message.feed_id ≡ expected_feed_id
    pub positive : pos 1 ≤ℤ out.price
    pub not_future : update.price_message.publish_time ≤ℤ now
    pub fresh : now -ℤ update.price_message.publish_time ≤ℤ pos max_price_age_sec
    pub confident : out.conf * 10_000 ≤ max_conf_bps * pos_part out.price
    pub posted : out ≡ record {
      price = update.price_message.price;
      expo = update.price_message.exponent;
      conf = update.price_message.conf;
      publish_time = update.price_message.publish_time;
      posted_slot = update.posted_slot;
    }

  module _ (account : AccountInfo) (expected_oracle : Pubkey) (expected_feed_id : Hash)
      (max_price_age_sec max_conf_bps : ℕ) (now : ℤ) (out : OraclePrice) where
    price_confident :
        (u : PriceUpdateV2)
        → read_update rt account ≡ ok u
        → load_price rt account expected_oracle expected_feed_id max_price_age_sec max_conf_bps now
          ≡ ok out
        → out.conf * 10_000 ≤ max_conf_bps * pos_part out.price
    unfolding load_price
    price_confident u e h =
        let p = pos_part u.price_message.price in
        elim (Result-cases (confidence_bps u.price_message.conf (pos p))) [
          | inl (w, ew) ↦
              let q = confidence_bps-le_iff u.price_message.conf p max_conf_bps w ew in
              ground (arith, q.0)
          | inr (f, ef) ↦ ground arith
        ]

    -- A price that is returned comes from the expected account, owned by the receiver program,
    -- with the discriminator and a decoded update that is fully verified and of the expected feed;
    -- it is above 0, published neither in the future nor longer ago than the bound, and its
    -- confidence interval is within its bound in exact arithmetic.
    pub load_price-IsAccepted :
        load_price rt account expected_oracle expected_feed_id max_price_age_sec max_conf_bps now
          ≡ ok out
        → IsAccepted account expected_oracle expected_feed_id max_price_age_sec max_conf_bps now out
    unfolding load_price
    load_price-IsAccepted h = elim (Result-cases (read_update rt account)) [
      | inl (u, e) ↦ record {
        addressed = ground arith;
        update = u;
        genuine = read_update-IsGenuine account u e;
        verified = ground (arith, is_full-eq u.verification_level);
        feed = ground arith;
        positive = ground arith;
        not_future = ground (arith, -ℤ_parts now u.price_message.publish_time);
        fresh = ground arith;
        confident = price_confident u e h;
        posted = ground arith;
      }
      | inr (f, e) ↦ ground arith
    ]

    -- An account that satisfies all of these conditions (IsAccepted) is not refused, on values in
    -- the ranges of their types (u64, i64, u16 and u32).
    pub load_price_complete :
        (p : ℕ)
        → IsAccepted account expected_oracle expected_feed_id max_price_age_sec max_conf_bps now out
        → out.price ≡ pos p
        → p < 2 ^ 63
        → out.conf < 2 ^ 64
        → max_conf_bps < 2 ^ 16
        → max_price_age_sec < 2 ^ 32
        → load_price rt account expected_oracle expected_feed_id max_price_age_sec max_conf_bps now
          ≡ ok out
    unfolding load_price
    load_price_complete p a ep hp hc hb ha =
        let (w, ew, wle) =
          confidence_bps_total out.conf p max_conf_bps hc (ground arith) hp hb
            (rw ep at a.confident) in
        ground (
          arith,
          a,
          read_update_complete account a.update a.genuine,
          -ℤ_parts now a.update.price_message.publish_time,
        )
