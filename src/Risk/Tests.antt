-- ===== src/Risk/Tests.antt =====
-- The risk layer at concrete inputs.
use vi_xauusd.Prelude.{◌≡◌, refl, true, false, none, some, List, [], ◌∷◌}
use vi_xauusd.Prelude.Int.{pos, negsuc}
use vi_xauusd.Risk.Weakness.{
  no_break, confirmed_breakdown, no_weakness, accelerating, Indicators, macd_negative,
  macd_expanding, oscillator_bearish, h1_cooling, families_of, weakness_state,
}
use vi_xauusd.Risk.Weakness.Evidence.{}
use vi_xauusd.Risk.Priority.{
  usable, strong_bearish, ready, no_trade, Situation, branch, apply_risk_priority,
}
use vi_xauusd.Risk.Priority.Order.{detected, detect-apply_closed}
use vi_xauusd.Risk.Assessment.{
  long, m15, PositionContext, is_complete, no_reversal, Bar, exit_confirmed, judge_position,
  assess_trading_decision,
}
use vi_xauusd.Risk.Assessment.Separation.{}

abbrev falling : Indicators
falling = record {
  macd_hist = some (negsuc 40);
  macd_hist_prev = some (negsuc 20);
  rsi_fast = some 2500;
  rsi_slow = some 4200;
  rsi_fast_prev = some 2900;
  stoch_k = some 1500;
  stoch_d = some 2000;
  stoch_k_prev = none;
  h1_hist = some (pos 5);
  h1_hist_prev = some (pos 9);
  h1_hist_prev2 = none;
  h1_rsi = some 4800;
}

abbrev easing : Indicators
easing = record falling { macd_hist = some (negsuc 10) }

abbrev quiet_day : Situation
quiet_day = record {
  weakness = record {
    state = no_weakness;
    families = [];
    oversold = false;
    recovery_candidate = false;
  };
  market_status = usable;
  event_status = usable;
  event_lockout = false;
  market_regime = strong_bearish;
  entry_readiness = ready;
}

abbrev full_context : PositionContext
full_context = record {
  direction = long;
  entry_price = some 240000;
  size = some 1;
  timeframe = m15;
  original_stop = some 239000;
  max_loss_usd = none;
  thesis = "trend";
  allow_event_hold = some false;
}

abbrev bars : List Bar
bars =
    record { bar_open = 110; bar_low = 100; bar_close = 105 }
    ∷ record { bar_open = 105; bar_low = 90; bar_close = 100 }
    ∷ record { bar_open = 100; bar_low = 95; bar_close = 104 }
    ∷ []

-- All four families agree.
falling_accelerates : weakness_state falling confirmed_breakdown ≡ accelerating
unfolding weakness_state macd_expanding families_of macd_negative oscillator_bearish h1_cooling
falling_accelerates = refl

-- With nothing against it, the short is allowed.
quiet_short : (apply_risk_priority quiet_day).short_allowed ≡ true
unfolding apply_risk_priority branch
quiet_short = refl

detect-apply_closed_example :
    ((apply_risk_priority (detected falling no_break quiet_day)).long_allowed ≡ false)
    × ((apply_risk_priority (detected falling no_break quiet_day)).short_allowed ≡ false)
unfolding macd_negative
detect-apply_closed_example = detect-apply_closed falling no_break quiet_day refl

-- A complete context, and the thesis is gone.
exits :
    (assess_trading_decision no_weakness false no_reversal no_trade
      (false, false)
      full_context
      true).action
    ≡ exit_confirmed
unfolding assess_trading_decision is_complete judge_position
exits = refl
