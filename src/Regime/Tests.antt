-- ===== src/Regime/Tests.antt =====
-- app/engines/regime_state_machine.py at concrete inputs.
use vi_xauusd.Prelude.{String, ◌≡◌, refl, false, none, some, []}
use vi_xauusd.Prelude.Int.{negsuc}
use vi_xauusd.Regime.{
  recovering, bullish, neutral, Momentum, mixed_range, Market, Regime, classify,
  evaluate_regime_state,
}
use vi_xauusd.Regime.Look.{}

abbrev named : Market → Momentum → String → String
named m s candle = candle

-- The last candle closed above the level to reclaim.
abbrev closed_above : Market
closed_above = record {
  symbol = "XAUUSD";
  data_version = 7;
  trend_bias = neutral;
  h4_trend = some bullish;
  h1_trend = some bullish;
  m15_trend = none;
  short_term_momentum = "";
  m15_momentum = "weakening";
  support_state = "none";
  closed_price = some 240100;
  live_price = some 240300;
  reclaim_level = some 240000;
  source_candle = "10:15";
  evaluated_at = "10:16";
  rsi = some 52;
  rsi_prev = some 48;
  hist = some (negsuc 3);
  hist_prev = some (negsuc 9);
}

abbrev unknown : Regime
unknown = record {
  htf_trend = neutral;
  mid_structure = neutral;
  composite = mixed_range;
  is_live_testing = false;
  confirmed_state = none;
  regime_level = none;
  regime_at = "";
  regime_candle = "";
  state_version = 0;
  transition_log = [];
}

abbrev restored : Regime
restored = (evaluate_regime_state named unknown closed_above).0

-- One tick lower, the level only counts as near.
not_above :
    (evaluate_regime_state named unknown
      (record closed_above { closed_price = some 240000 })).0.confirmed_state
    ≡ some recovering
unfolding evaluate_regime_state classify
not_above = refl
