-- ===== src/Oracle.antt =====
-- The oracle adapter (programs/poyz/src/oracle.rs): how a price account is authenticated and gated.
-- Decoding the account's bytes is Anchor's, a parameter.
pub mod Gates
mod Tests
use plott.Common.{
  ℕ, Bool, true, false, ◌&&◌, ◌==◌, leb, if◌then◌else◌, List, [], ◌∷◌, Option, some, none, Result,
  ok, ◌>>=◌, ◌>>◌, require, ok_or, poyz, oracle_account_mismatch, oracle_owner_mismatch,
  oracle_discriminator_mismatch, oracle_deserialize_failed, oracle_not_fully_verified,
  oracle_feed_mismatch, oracle_invalid_price, oracle_price_from_future, oracle_price_stale,
  oracle_confidence_too_wide,
}
use plott.Common.Int.{ℤ, pos, ltb_ℤ, leb_ℤ}
use plott.Common.Checked.{checked_sub_ℤ}
use plott.Math.{confidence_bps}
use plott.State.Keys.{Pubkey, Hash}
use plott.Pyth.{AccountInfo, VerificationLevel, PriceUpdateV2, OraclePrice}
use plott.Runtime.{Runtime}

-- `rec5EKMGg6MxZYaMdyBfgwp4d5rB9T1VQH5pJv5LtFJ`, as a number in base 58.
abbrev pub pyth_receiver_program_id : Pubkey
pyth_receiver_program_id =
    5752817682687850422407040622477569466496897992695320872709617896839248894081

abbrev pub price_update_v2_discriminator : List ℕ
price_update_v2_discriminator = 34 ∷ 241 ∷ 35 ∷ 99 ∷ 157 ∷ 126 ∷ 244 ∷ 205 ∷ []

-- `data.len() > 8` and `data.split_at(8)`: the first eight bytes and the rest, if there is a rest.
unfoldable pub split_discriminator : List ℕ → Option (List ℕ × List ℕ)
split_discriminator (a ∷ b ∷ c ∷ d ∷ e ∷ f ∷ g ∷ h ∷ x ∷ body) =
    some (a ∷ b ∷ c ∷ d ∷ e ∷ f ∷ g ∷ h ∷ [], x ∷ body)
split_discriminator _ = none

abbrev pub bytes_eq : List ℕ → List ℕ → Bool
bytes_eq [] [] = true
bytes_eq (a ∷ as') (b ∷ bs) = a == b && bytes_eq as' bs
bytes_eq _ _ = false

abbrev pub is_full : VerificationLevel → Bool
is_full VerificationLevel.full = true
is_full (VerificationLevel.partial n) = false

module _ {T : Type 0} (rt : Runtime T) where
  -- The checks that both readers share: the account's owner, its discriminator and its decoding.
  unfoldable pub read_update : AccountInfo → Result PriceUpdateV2
  read_update account = do
    require (account.owner == pyth_receiver_program_id) oracle_owner_mismatch
    (discriminator, body) ←
        ok_or (split_discriminator account.bytes) (poyz oracle_discriminator_mismatch)
    require (bytes_eq discriminator price_update_v2_discriminator) oracle_discriminator_mismatch
    ok_or (rt.deserialize body) (poyz oracle_deserialize_failed)

  unfoldable pub load_price : AccountInfo → Pubkey → Hash → ℕ → ℕ → ℤ → Result OraclePrice
  load_price account expected_oracle expected_feed_id max_price_age_sec max_conf_bps now = do
    require (account.key == expected_oracle) oracle_account_mismatch
    update ← read_update account
    require (is_full update.verification_level) oracle_not_fully_verified
    let message = update.price_message
    require (message.feed_id == expected_feed_id) oracle_feed_mismatch
    require (ltb_ℤ (pos 0) message.price) oracle_invalid_price
    age ← checked_sub_ℤ 63 now message.publish_time
    require (leb_ℤ (pos 0) age) oracle_price_from_future
    require (leb_ℤ age (pos max_price_age_sec)) oracle_price_stale
    conf_bps ← confidence_bps message.conf message.price
    require (leb conf_bps max_conf_bps) oracle_confidence_too_wide
    ok (record {
      price = message.price;
      expo = message.exponent;
      conf = message.conf;
      publish_time = message.publish_time;
      posted_slot = update.posted_slot;
    })

  unfoldable pub validate_oracle_account : AccountInfo → Hash → Result (Unit {0})
  validate_oracle_account account expected_feed_id = do
    update ← read_update account
    require (update.price_message.feed_id == expected_feed_id) oracle_feed_mismatch
