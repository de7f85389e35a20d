-- ===== src/Scripts/Defaults.antt =====
-- easyclaw-contract/scripts/defaults.ts: the parameters of the markets. `number` and `bigint`
-- fields hold non-negative integers throughout.
use easyclaw.Base.{ℕ, ◌*◌, List, [], ◌∷◌, Text, text}

pub record RiskParams : Type 0 where
  pub max_leverage : ℕ
  pub imr_bps : ℕ
  pub mmr_bps : ℕ
  pub oi_cap : ℕ
  pub skew_cap : ℕ
  pub max_trade_notional : ℕ

pub record PricingParams : Type 0 where
  pub base_spread_bps : ℕ
  pub skew_coeff_bps : ℕ
  pub max_fill_deviation_bps : ℕ
  pub max_oracle_staleness_sec : ℕ
  pub max_conf_bps : ℕ

pub record FundingParams : Type 0 where
  pub interval_sec : ℕ
  pub funding_velocity_cap_bps_per_day : ℕ
  pub premium_clamp_bps : ℕ

pub record FeeParams : Type 0 where
  pub taker_fee_bps : ℕ
  pub maker_fee_bps : ℕ

-- An element of `MARKETS`.
pub record Market : Type 0 where
  pub market_id : ℕ
  pub symbol : Text
  pub risk : RiskParams
  pub pricing : PricingParams

-- `BALANCED_COMMON.risk` with the caps of one market, in millionths.
abbrev pub balanced_risk : ℕ → ℕ → ℕ → RiskParams
balanced_risk oi skew trade = record {
  max_leverage = 20;
  imr_bps = 500;
  mmr_bps = 250;
  oi_cap = oi * 1000000;
  skew_cap = skew * 1000000;
  max_trade_notional = trade * 1000000;
}

-- `BALANCED_COMMON.pricing` with the skew coefficient of one market.
abbrev pub balanced_pricing : ℕ → PricingParams
balanced_pricing skew_coeff = record {
  base_spread_bps = 5;
  skew_coeff_bps = skew_coeff;
  max_fill_deviation_bps = 150;
  max_oracle_staleness_sec = 30;
  max_conf_bps = 30;
}

abbrev pub balanced_funding : FundingParams
balanced_funding = record {
  interval_sec = 3600;
  funding_velocity_cap_bps_per_day = 200;
  premium_clamp_bps = 100;
}

abbrev pub balanced_fee : FeeParams
balanced_fee = record { taker_fee_bps = 8; maker_fee_bps = 2 }

abbrev pub btc_perp : Market
btc_perp = record {
  market_id = 1;
  symbol = text "BTC-PERP";
  risk = balanced_risk 5000000 1000000 250000;
  pricing = balanced_pricing 40;
}

abbrev pub eth_perp : Market
eth_perp = record {
  market_id = 2;
  symbol = text "ETH-PERP";
  risk = balanced_risk 4000000 800000 150000;
  pricing = balanced_pricing 55;
}

abbrev pub sol_perp : Market
sol_perp = record {
  market_id = 3;
  symbol = text "SOL-PERP";
  risk = balanced_risk 2000000 400000 75000;
  pricing = balanced_pricing 75;
}

unfoldable pub markets : List Market
markets = btc_perp ∷ eth_perp ∷ sol_perp ∷ []
