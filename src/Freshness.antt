-- ===== src/Freshness.antt =====
-- app/engines/freshness_state.py: how old the data are. Times are milliseconds; `parse` stands for
-- parse_utc, and the calendar says whether the market is open. The reasons are left out.
pub mod Health
mod Tests
use vi_xauusd.Prelude.{
  leb, ◌==◌, if◌then◌else◌, is_some, ℕ, ◌-◌, ◌*◌, max, String, Bool, true, false, not, ◌||◌, Option,
  none, some, str_eq,
}

pub data FreshnessStatus : Type 0 where
  fresh : FreshnessStatus
  degraded : FreshnessStatus
  stale : FreshnessStatus

pub data HealthState : Type 0 where
  healthy : HealthState
  health_degraded : HealthState
  health_stale : HealthState
  recovering : HealthState
  disconnected : HealthState
  market_closed : HealthState

pub record Item : Type 0 where
  pub status : FreshnessStatus
  pub last_updated_at : Option ℕ
  pub age : Option ℕ

pub record Stamps : Type 0 where
  pub last_update : String
  pub market_timestamp : String
  pub last_closed_candle : String
  pub data_updated_at : String
  pub event_timestamp : String
  pub calendar_updated_at : String
  pub analysis_time : String

pub record Limits : Type 0 where
  pub stale_price_seconds : ℕ
  pub tier1_quote_seconds : ℕ

pub record Freshness : Type 0 where
  pub market : Item
  pub candle : Item
  pub market_status : FreshnessStatus
  pub health_state : HealthState
  pub events : Item
  pub calendar : Item
  pub strategy_status : FreshnessStatus
  pub strategy_age : Option ℕ

abbrev minute : ℕ
minute = 60000

abbrev day : ℕ
day = 86400000

abbrev pub severity : FreshnessStatus → ℕ
severity fresh = 0
severity degraded = 1
severity stale = 2

abbrev pub grade : ℕ → ℕ → ℕ → FreshnessStatus
grade fresh_limit degraded_limit age =
    if leb age fresh_limit then fresh else if leb age degraded_limit then degraded else stale

-- `_item`
unfoldable pub item : ℕ → ℕ → ℕ → Option ℕ → Item
item now fresh_limit degraded_limit none = record {
  status = stale;
  last_updated_at = none;
  age = none;
}
item now fresh_limit degraded_limit (some t) = record {
  status = grade fresh_limit degraded_limit (now - t);
  last_updated_at = some t;
  age = some (now - t);
}

abbrev pub text_or : String → String → String
text_or a b = if str_eq a "" then b else a

abbrev pub worse : FreshnessStatus → FreshnessStatus → FreshnessStatus
worse a b = if leb (severity b) (severity a) then a else b

abbrev pub is_bad : Option HealthState → Bool
is_bad none = false
is_bad (some s) = elim s [
  | health_stale ↦ true
  | disconnected ↦ true
  | market_closed ↦ true
  | _ ↦ false
]

unfoldable pub health : Bool → Item → FreshnessStatus → Option HealthState → HealthState
health market_open market status previous =
    if not market_open
    then market_closed
    else if not (is_some market.last_updated_at)
    then disconnected
    else if severity status == 2
    then health_stale
    else if is_bad previous
    then recovering
    else if severity status == 1
    then health_degraded
    else healthy

unfoldable pub strategy : FreshnessStatus → FreshnessStatus → FreshnessStatus
strategy market_status event_status =
    if severity market_status == 2
    then stale
    else if severity market_status == 1 || not (severity event_status == 0)
    then degraded
    else fresh

unfoldable pub quote_limit : Limits → ℕ
quote_limit l = max l.stale_price_seconds (l.tier1_quote_seconds * 3) * 1000

unfoldable pub evaluate_freshness_state :
    (String → Option ℕ) → Limits → Stamps → Bool → ℕ → Option HealthState → Freshness
unfolding item health strategy quote_limit
evaluate_freshness_state parse l s market_open now previous =
    let event_stamp = text_or s.data_updated_at s.event_timestamp in
    let market =
      item now (quote_limit l) (quote_limit l * 3)
        (parse (text_or s.last_update s.market_timestamp)) in
    let candle = item now (20 * minute) (35 * minute) (parse s.last_closed_candle) in
    let events = item now day (7 * day) (parse event_stamp) in
    record {
      market = market;
      candle = candle;
      market_status = worse market.status candle.status;
      health_state = health market_open market (worse market.status candle.status) previous;
      events = events;
      calendar = item now day (7 * day) (parse (text_or s.calendar_updated_at event_stamp));
      strategy_status = strategy (worse market.status candle.status) events.status;
      strategy_age = (item now (15 * minute) (30 * minute) (parse s.analysis_time)).age;
    }
