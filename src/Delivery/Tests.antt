-- ===== src/Delivery/Tests.antt =====
-- app/services/pre_delivery_trade_safety.py at concrete inputs.
use vi_xauusd.Prelude.{ℕ, ◌+◌, ◌-◌, ◌≡◌, refl, true, false, none, some, [], ◌∷◌}
use vi_xauusd.Prelude.Rounding.{round_ratio}
use vi_xauusd.Positions.{long}
use vi_xauusd.Pricing.{friction, risk_distance, reward_distance, calculate_risk_reward}
use vi_xauusd.Delivery.{
  enter, Settings, Payload, CurrentRow, Queued, Market, entry_price_out_of_range, queue_ttl,
  price_checks, age_checks, ratio_checks, candle_checks, entry_reason, validate_pre_delivery,
  get_delivery_safe_current_decision,
}
use vi_xauusd.Delivery.Safety.{IsSafeEntry, validate-IsSafeEntry}
use vi_xauusd.Delivery.Readers.{get_delivery_safe-unchecked}

abbrev limits : Settings
limits = record {
  entry_ready_max_queue_age = 120;
  entry_approaching_max_queue_age = 300;
  update_max_queue_age = 600;
  tick_max_age = 30;
  closed_candle_max_age = 1200;
  max_decision_age = 300;
  drift_atr_ratio = 25;
  drift_min_delta = 100;
  spread_max_abs = 80;
  spread_max_atr15_mult = 10;
  estimated_slippage = 20;
  absolute_min_rr = 120;
  assistant_min_rr = 150;
}

abbrev entry_4612 : Payload
entry_4612 = record {
  final_action = enter long;
  state = "ENTRY_READY";
  can_enter = true;
  primary_reason = "";
  risk_gate = "ENTRY_READY";
  created_at = some 10000;
  decided_at = some 10000;
  current_price = some 461200;
  atr15 = 1000;
  source_candle = some 9900;
  selected_scenario_version = 3;
  entry_low = some 461000;
  entry_high = some 461500;
  chase_limit = some 461800;
  invalidation_price = some 460200;
  targets = none ∷ some 464500 ∷ [];
  valid_until = some 10600;
}

abbrev row_7 : CurrentRow
row_7 = record {
  decision_id = "D7";
  decision_version = 7;
  scenario_version = 3;
  payload = entry_4612;
  updated_at = 10000;
}

abbrev market_at : ℕ → Market
market_at price = record {
  current = some row_7;
  tick =
      some (record {
        bid = price - 20;
        ask = price + 20;
        mid = price;
        spread = 40;
        quote_time = 10050;
      });
  latest_candle = some 9900;
}

abbrev queued_7 : Queued
queued_7 = record {
  queued_decision = enter long;
  queued_id = "D7";
  queued_version = 7;
  queued_scenario_version = 3;
  names_entry_ready = true;
  names_approach = false;
}

validate-IsSafeEntry_example : IsSafeEntry limits 10060 10010 queued_7 (market_at 461200)
unfolding validate_pre_delivery entry_reason candle_checks price_checks age_checks ratio_checks
    queue_ttl calculate_risk_reward friction risk_distance reward_distance round_ratio
validate-IsSafeEntry_example =
    validate-IsSafeEntry limits 10060 10010 queued_7 (market_at 461200) refl refl refl

-- A price above the zone is blocked, and the entry is told to wait.
out_of_range :
    (validate_pre_delivery limits 10060 10010 queued_7 (market_at 461700)).reason
    ≡ entry_price_out_of_range
unfolding validate_pre_delivery entry_reason candle_checks price_checks age_checks ratio_checks
    queue_ttl calculate_risk_reward friction risk_distance reward_distance round_ratio
out_of_range = refl

-- The reader's gate returns the same entry an hour later at a price beyond its target.
get_delivery_safe-unchecked_example :
    get_delivery_safe_current_decision limits 13600 (market_at 470000) ≡ some entry_4612
get_delivery_safe-unchecked_example = get_delivery_safe-unchecked limits 13600 (market_at 470000)
