-- ===== src/ShortAlert/State.antt =====
-- app/engines/short_alert_state.py: the states, events and inputs of the bearish alert.
use vi_xauusd.Prelude.{ℕ, String, Bool, Option, none, List, str_eq}

pub data AlertStatus : Type 0 where
  neutral : AlertStatus
  short_watch : AlertStatus
  bearish_watch : AlertStatus
  short_entry_ready : AlertStatus
  short_invalidated : AlertStatus
  short_confirmed : AlertStatus

pub data BearishEvent : Type 0 where
  no_event : BearishEvent
  intrabar_breach : BearishEvent
  breakdown_confirmed : BearishEvent
  retest_rejected : BearishEvent
  bearish_continuation : BearishEvent
  entry_ready : BearishEvent
  false_breakout : BearishEvent

pub data SupportState : Type 0 where
  other_state : SupportState
  breach_state : SupportState
  confirmed_breakdown : SupportState
  rejected_state : SupportState
  failed_breakdown : SupportState

pub record AlertState : Type 0 where
  pub status : AlertStatus
  pub level : Option ℕ
  pub invalidation_level : Option ℕ
  pub zone_low : Option ℕ
  pub zone_high : Option ℕ
  pub created_at : String
  pub last_closed_candle : String
  pub last_closed_price : Option ℕ
  pub last_event : BearishEvent
  pub generation : ℕ

pub data LevelKind : Type 0 where
  support : LevelKind
  resistance : LevelKind
  other_kind : LevelKind

pub record Level : Type 0 where
  pub kind : LevelKind
  pub is_15m : Bool
  pub price : Option ℕ
  pub buffer : Option ℕ

pub record EntryPlan : Type 0 where
  pub is_short : Bool
  pub is_ready : Bool
  pub has_all_prices : Bool
  pub risk_reward : ℕ

pub record Snapshot : Type 0 where
  pub levels : List Level
  pub atr : ℕ
  pub closed : String
  pub closed_price : Option ℕ
  pub market_timestamp : String
  pub support_state : SupportState
  pub entry_plan : Option EntryPlan
  pub now : String

pub data Blocked : Type 0 where
  bad_bounds : Blocked
  zone_too_wide : Blocked
  crossed_levels : Blocked
  overlapping_zones : Blocked
  no_support_level : Blocked

pub record Topic : Type 0 where
  pub topic_event : BearishEvent
  pub topic_level : ℕ
  pub topic_candle : String

pub record AlertEvaluation : Type 0 where
  pub state : AlertState
  pub should_notify : Bool
  pub event_type : BearishEvent
  pub topic : Option Topic
  pub blocked_reason : Option Blocked

-- `ShortAlertState()`
abbrev pub initial : AlertState
initial = record {
  status = neutral;
  level = none;
  invalidation_level = none;
  zone_low = none;
  zone_high = none;
  created_at = "";
  last_closed_candle = "";
  last_closed_price = none;
  last_event = no_event;
  generation = 0;
}

abbrev pub is_empty : String → Bool
is_empty t = str_eq t ""
