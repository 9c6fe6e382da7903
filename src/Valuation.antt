-- ===== src/Valuation.antt =====
-- The calls of `load_price`, `collateral_to_notional` and `notional_to_collateral` as every handler
-- writes them, with the bounds and the decimals of the config account.
use plott.Common.{ℕ, Result}
use plott.Common.Int.{ℤ}
use plott.Math.{collateral_to_notional, notional_to_collateral}
use plott.Math.Value.{shift_of}
use plott.State.{Config}
use plott.Pyth.{AccountInfo, OraclePrice}
use plott.Runtime.{Runtime}
use plott.Oracle.{load_price}

abbrev pub config_price : {T : Type 0} → Runtime T → Config → AccountInfo → ℤ → Result OraclePrice
config_price rt config oracle now =
    load_price rt oracle config.oracle config.feed_id config.max_price_age_sec config.max_conf_bps
      now

abbrev pub config_notional : Config → OraclePrice → ℕ → Result ℕ
config_notional config price amount =
    collateral_to_notional amount price.price price.expo config.collateral_decimals
      config.synthetic_decimals

abbrev pub config_collateral : Config → OraclePrice → ℕ → Result ℕ
config_collateral config price notional =
    notional_to_collateral notional price.price price.expo config.collateral_decimals
      config.synthetic_decimals

-- The shift of the exact exchange rate at a price.
abbrev pub config_shift : Config → OraclePrice → ℤ
config_shift config price = shift_of price.expo config.collateral_decimals config.synthetic_decimals
