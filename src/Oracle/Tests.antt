-- ===== src/Oracle/Tests.antt =====
-- `load_price` of programs/poyz/src/oracle.rs on the account of Examples/Setup, and its theorems there.
use plott.Common.{◌^◌, ◌<◌, ◌≡◌, refl, true, false, ok, arith}
use plott.Common.Int.{pos, ◌-ℤ◌}
use plott.Pyth.{OraclePrice}
use plott.Examples.{is_ok, value_of, ok-value_of}
use plott.Examples.Setup.{oracle, rt}
use plott.Oracle.Gates.{IsAccepted, load_price-IsAccepted, load_price_complete}
use plott.Oracle.{load_price}

price_runs : is_ok (load_price rt oracle 30 40 60 100 (pos 1_000)) ≡ true
unfolding load_price plott.Oracle.read_update plott.Oracle.split_discriminator ◌-ℤ◌
    plott.Math.confidence_bps
price_runs = refl

abbrev price_done : OraclePrice
price_done = value_of (load_price rt oracle 30 40 60 100 (pos 1_000)) price_runs

price_ok : load_price rt oracle 30 40 60 100 (pos 1_000) ≡ ok price_done
price_ok = ok-value_of (load_price rt oracle 30 40 60 100 (pos 1_000)) price_runs

-- A price older than the bound, one from the future, and another account.
price_stale : is_ok (load_price rt oracle 30 40 60 100 (pos 1_051)) ≡ false
unfolding load_price plott.Oracle.read_update plott.Oracle.split_discriminator ◌-ℤ◌
price_stale = refl

price_future : is_ok (load_price rt oracle 30 40 60 100 (pos 989)) ≡ false
unfolding load_price plott.Oracle.read_update plott.Oracle.split_discriminator ◌-ℤ◌
price_future = refl

price_elsewhere : is_ok (load_price rt oracle 31 40 60 100 (pos 1_000)) ≡ false
unfolding load_price
price_elsewhere = refl

accepted : IsAccepted rt oracle 30 40 60 100 (pos 1_000) price_done
accepted = load_price-IsAccepted rt oracle 30 40 60 100 (pos 1_000) price_done price_ok

price_value : price_done.price ≡ pos 15_000_000_000
unfolding load_price plott.Oracle.read_update plott.Oracle.split_discriminator ◌-ℤ◌
    plott.Math.confidence_bps
price_value = refl

price_small : 15_000_000_000 < 2 ^ 63
price_small = omega arith

conf_value : price_done.conf ≡ 15_000_000
unfolding load_price plott.Oracle.read_update plott.Oracle.split_discriminator ◌-ℤ◌
    plott.Math.confidence_bps
conf_value = refl

conf_small : price_done.conf < 2 ^ 64
conf_small = omega (arith, conf_value)

bound_small : 100 < 2 ^ 16
bound_small = omega arith

age_small : 60 < 2 ^ 32
age_small = omega arith

load_price-IsAccepted_example : IsAccepted rt oracle 30 40 60 100 (pos 1_000) price_done
load_price-IsAccepted_example =
    load_price-IsAccepted rt oracle 30 40 60 100 (pos 1_000) price_done price_ok

load_price_complete_example : load_price rt oracle 30 40 60 100 (pos 1_000) ≡ ok price_done
load_price_complete_example =
    load_price_complete rt oracle 30 40 60 100 (pos 1_000) price_done 15_000_000_000 accepted
      price_value price_small conf_small bound_small age_small
