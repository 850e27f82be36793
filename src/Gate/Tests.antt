-- ===== src/Gate/Tests.antt =====
-- The entry gate at concrete inputs.
use vi_xauusd.Prelude.{
  leb, and_some, All, ◌≤◌, min, max, ◌≡◌, refl, true, false, not, ◌&&◌, ◌||◌, none, some, List, [],
  ◌∷◌, str_eq,
}
use vi_xauusd.Prelude.Int.{negsuc}
use vi_xauusd.Execution.{missing, at}
use vi_xauusd.Gate.{
  long, short, ready, GateSettings, Candidate, Situation, same_side, is_suspended, has_expired,
  distance_state, is_broken, is_over, stop_valid, is_ready, hard_checks, hard_blocks, points_of,
  sum_gains, sum_losses, score_of, is_confirmed, state_of,
}
use vi_xauusd.Gate.Safe.{state-open}
use vi_xauusd.Gate.Choice.{rank_of, evaluate_entry_opportunity_gate, entry_state, evaluate-top}

abbrev usual : GateSettings
usual = record {
  absolute_min_rr = 110;
  ideal_rr = 150;
  degraded_data_penalty = 6;
  partial_confirmation_penalty = 5;
  counter_4h_penalty = 6;
  counter_1d_penalty = 4;
  full_score = 72;
  probe_score = 56;
}

abbrev buy : Candidate
buy = record {
  direction = long;
  strength = 90;
  risk_reward = some 200;
  stage = ready;
  zone = some (240200, 239800);
  chase_limit = none;
  stop = some 239500;
  expires_at = missing;
  is_recognized = true;
}

abbrev calm : Situation
calm = record {
  current_price = 240000;
  data_health = "HEALTHY";
  has_desync = false;
  is_closed = false;
  is_blackout = false;
  has_wide_spread = false;
  has_position = false;
  live_bias_state = "ALIGNED";
  structural_side = some long;
  evaluated_at = at 600;
  clock = 610;
  closed_candle_available = true;
  bias15m = some long;
  bias1h = some long;
  bias4h = none;
  bias1d = some short;
  market_bias = some long;
  momentum = "STRONG";
  defense_state = "";
  market_behavior = "";
  scenario_validity = "ACTIVE";
  volume_impact = λ d. negsuc 2;
}

buy_score : score_of usual buy calm ≡ 91
unfolding score_of points_of distance_state sum_gains sum_losses
buy_score = refl

state-open_example :
    ((is_broken calm.data_health ≡ false)
      × (calm.has_desync ≡ false)
      × (calm.is_closed ≡ false)
      × (calm.is_blackout ≡ false)
      × (calm.has_wide_spread ≡ false)
      × (calm.has_position ≡ false))
    × ((and_some calm.structural_side (λ side. same_side buy.direction side)
          && is_suspended calm.live_bias_state)
        ≡ false)
    × ((is_over buy.stage ≡ false)
        × (has_expired buy.expires_at calm.evaluated_at calm.clock ≡ false)
        × (str_eq calm.scenario_validity "INVALIDATED" ≡ false)
        × (str_eq calm.scenario_validity "STALE" ≡ false))
    × (stop_valid buy.direction calm.current_price buy.stop ≡ true)
    × (and_some buy.risk_reward (λ rr. leb usual.absolute_min_rr rr) ≡ true)
    × (is_confirmed buy.stage ≡ true)
    × ((not (is_ready buy.stage) || calm.closed_candle_available) ≡ true)
    × (min 240200 239800 ≤ calm.current_price)
    × (calm.current_price ≤ max 240200 239800)
unfolding state_of hard_blocks hard_checks score_of points_of distance_state stop_valid sum_gains
    sum_losses
state-open_example = state-open usual buy calm 240200 239800 refl refl

-- A sale whose stop is on the wrong side stands before the purchase.
abbrev offers : List Candidate
offers = record buy { direction = short } ∷ buy ∷ []

evaluate-top_example :
    All
      (λ c.
        rank_of (state_of usual c calm)
        ≤ rank_of (entry_state (evaluate_entry_opportunity_gate usual calm offers)))
      offers
evaluate-top_example = evaluate-top usual calm offers
