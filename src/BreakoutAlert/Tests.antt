-- ===== src/BreakoutAlert/Tests.antt =====
-- app/engines/breakout_alert_state.py at concrete inputs.
use vi_xauusd.Prelude.{is_some, ◌≡◌, refl, true, false, none, some, str_eq}
use vi_xauusd.BreakoutAlert.{
  neutral, ranging, wait_retest, BreakoutState, Market, evaluate_breakout_alert,
}
use vi_xauusd.BreakoutAlert.Candles.{evaluate-once}

abbrev start : BreakoutState
start = record {
  status = neutral;
  zone_low = none;
  zone_high = none;
  breakout_time = "";
  consecutive_closes = 0;
  last_candle = "";
  last_event = none;
  trend = ranging;
  advice = wait_retest;
}

abbrev above : Market
above = record {
  resistance = some (2400, 2);
  price = some 2405;
  closed = some 2404;
  candle = "10:15";
  market_timestamp = "10:20";
  h1_close = none;
  higher_low_broken = false;
  macd_declining = false;
}

evaluate-once_example :
    (str_eq "10:15" "" ≡ false)
    × ((evaluate_breakout_alert start above).0.last_candle ≡ "10:15")
    × (is_some above.closed ≡ true)
unfolding evaluate_breakout_alert
evaluate-once_example = evaluate-once start above refl
