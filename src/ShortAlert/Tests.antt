-- ===== src/ShortAlert/Tests.antt =====
-- app/engines/short_alert_state.py at concrete inputs.
use vi_xauusd.Prelude.{◌≡◌, refl, true, some, List, [], ◌∷◌}
use vi_xauusd.ShortAlert.State.{
  bearish_watch, intrabar_breach, breakdown_confirmed, entry_ready, false_breakout, SupportState,
  breach_state, confirmed_breakdown, failed_breakdown, AlertState, support, resistance, Level,
  Snapshot, initial,
}
use vi_xauusd.ShortAlert.Zones.{support_level, validate_alert_zones}
use vi_xauusd.ShortAlert.Evaluate.{evaluate_short_alert}
use vi_xauusd.ShortAlert.Alerts.{announced, IsVaried, announced-IsVaried}
use vi_xauusd.ShortAlert.Confirmation.{}

-- Support at 2400.00 with a buffer of 2.00; a price ends 2398.50.
abbrev levels_2400 : List Level
levels_2400 =
    record { kind = support; is_15m = true; price = some 240000; buffer = some 200 }
    ∷ record { kind = resistance; is_15m = true; price = some 242000; buffer = some 200 }
    ∷ []

abbrev at_state : SupportState → Snapshot
at_state s = record {
  levels = levels_2400;
  atr = 600;
  closed = "2026-07-01T10:15";
  closed_price = some 239850;
  market_timestamp = "2026-07-01T10:20";
  support_state = s;
  entry_plan =
      some (record { is_short = true; is_ready = true; has_all_prices = true; risk_reward = 180 });
  now = "2026-07-01T10:20";
}

abbrev watching : AlertState
watching = record initial {
  status = bearish_watch;
  level = some 240000;
  invalidation_level = some 240000;
  last_closed_candle = "2026-07-01T10:00";
  last_event = breakdown_confirmed;
}

-- One closed candle, looked at five times.
abbrev looks : List Snapshot
looks =
    at_state breach_state
    ∷ at_state confirmed_breakdown
    ∷ at_state confirmed_breakdown
    ∷ at_state confirmed_breakdown
    ∷ at_state failed_breakdown
    ∷ []

announced-IsVaried_example : IsVaried (announced initial looks)
announced-IsVaried_example =
    announced-IsVaried looks initial "2026-07-01T10:15" (refl, (refl, (refl, (refl, (refl, tt)))))

announced-looks :
    announced initial looks
    ≡ intrabar_breach ∷ breakdown_confirmed ∷ entry_ready ∷ false_breakout ∷ []
unfolding announced evaluate_short_alert validate_alert_zones support_level
announced-looks = refl

-- The entry is announced, with the level and the candle in the topic.
entry_topic :
    (evaluate_short_alert (at_state confirmed_breakdown) (some watching)).topic
    ≡ some (record {
      topic_event = entry_ready;
      topic_level = 240000;
      topic_candle = "2026-07-01T10:15";
    })
unfolding evaluate_short_alert validate_alert_zones support_level
entry_topic = refl
