-- ===== src/Freshness/Tests.antt =====
-- app/engines/freshness_state.py at concrete inputs.
use vi_xauusd.Prelude.{if◌then◌else◌, ℕ, String, ◌≡◌, refl, true, Option, none, some, str_eq}
use vi_xauusd.Freshness.{healthy, Stamps, Limits, evaluate_freshness_state}
use vi_xauusd.Freshness.Health.{}

abbrev parse : String → Option ℕ
parse t = if str_eq t "" then none else some 100000000

abbrev limits : Limits
limits = record { stale_price_seconds = 90; tier1_quote_seconds = 20 }

abbrev stamps : Stamps
stamps = record {
  last_update = "q";
  market_timestamp = "";
  last_closed_candle = "c";
  data_updated_at = "";
  event_timestamp = "e";
  calendar_updated_at = "";
  analysis_time = "a";
}

half_a_minute :
    (evaluate_freshness_state parse limits stamps true 100030000 none).health_state ≡ healthy
unfolding evaluate_freshness_state
half_a_minute = refl
