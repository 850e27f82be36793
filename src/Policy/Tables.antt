-- ===== src/Policy/Tables.antt =====
-- app/services/notification_policy.py: the names of the events that its tests list.
use vi_xauusd.Prelude.{String, Bool, false, ◌||◌, List, [], ◌∷◌, str_eq}

-- `x in {...}`
abbrev pub one_of : String → List String → Bool
one_of x [] = false
one_of x (y ∷ ys) = str_eq x y || one_of x ys

-- `CRITICAL`
abbrev pub critical_events : List String
critical_events = "STOP_TRIGGERED" ∷ "POSITION_EXIT" ∷ "HARD_INVALIDATED" ∷ []

-- `ACTION`
abbrev pub action_events : List String
action_events =
    "ENTRY_READY" ∷ "PROBE_READY" ∷ "ENTRY_NOW" ∷ "POSITION_DEFEND" ∷ "SETUP_INVALIDATED"
    ∷ "SOFT_INVALIDATED" ∷ "EXIT_NOW" ∷ "ENTRY_INVALIDATED" ∷ "EARLY_ENTRY_INVALIDATED" ∷ []

-- `IMPORTANT`
abbrev pub important_events : List String
important_events =
    "DATA_DELAYED" ∷ "DATA_STALE" ∷ "DATA_RECOVERED" ∷ "DOUBLE_SWEEP_CONFIRMED" ∷ "FAILED_BREAKOUT"
    ∷ "FAILED_BREAKDOWN" ∷ "LIQUIDITY_SWEEP_HIGH" ∷ "LIQUIDITY_SWEEP_LOW" ∷ "WAIT_RETEST"
    ∷ "MISSED_ENTRY" ∷ "SETUP_EXPIRED" ∷ "TP1_HIT" ∷ "TP2_HIT" ∷ "TP3_HIT" ∷ "TRAIL_UPDATED"
    ∷ "POSITION_REDUCE" ∷ "WHIPSAW_DETECTED" ∷ "MARKET_REOPENED" ∷ "POSITION_WARNING"
    ∷ "SOFT_INVALIDATION_PENDING" ∷ "POSITION_RECOVERED" ∷ "POSITION_DATA_RISK" ∷ "BIAS_CHANGE"
    ∷ "SETUP_FORMING" ∷ "ENTRY_APPROACHING" ∷ "PRICE_RAN_AWAY" ∷ "RETRACE_APPROACHING"
    ∷ "RETRACE_ZONE_ENTERED" ∷ "SETUP_WEAKENING" ∷ "REENTRY_AVAILABLE" ∷ "TARGET_UPDATED"
    ∷ "TP_APPROACHING" ∷ "TP_HIT" ∷ "TRAILING_STOP_UPDATE" ∷ "EXIT_WARNING" ∷ "NEW_STRUCTURE"
    ∷ "BREAK_PENDING" ∷ "BREAK_CONFIRMED" ∷ "RECLAIM_FAILED" ∷ "LIQUIDITY_SWEEP_CANDIDATE"
    ∷ "PROFIT_GIVEBACK_ALERT" ∷ "PROFIT_STATE_CHANGED" ∷ "FAKE_BREAKOUT_CONFIRMED"
    ∷ "OPPOSITE_SETUP_CONFIRMED" ∷ "RECOVERY_SETUP_INVALIDATED" ∷ "DEFENSE_TEST"
    ∷ "DEFENSE_RECLAIMED" ∷ "DEFENSE_HELD" ∷ "DEFENSE_BROKEN_CONFIRMED" ∷ "EARLY_ENTRY_PREPARE"
    ∷ "EARLY_ENTRY_MISSED" ∷ "EARLY_ENTRY_WATCH" ∷ "EARLY_ENTRY_REPLACED" ∷ "STATE_CHANGED"
    ∷ "PULLBACK_ZONE_UPDATED" ∷ "MARKET_BEHAVIOR_CHANGED" ∷ "NEW_RECLAIM_EVENT" ∷ "TRAILING_EXIT"
    ∷ "FIRST_REJECTION" ∷ "REPEATED_REJECTION" ∷ "SUPPORT_BREAK_PENDING_CLOSE" ∷ "SUPPORT_BROKEN"
    ∷ "SUPPORT_RECLAIMED" ∷ "POSITION_DEFENSIVE" ∷ "POSITION_INVALIDATED" ∷ "LONG_INVALIDATING"
    ∷ "SHORT_INVALIDATING" ∷ "LONG_RESTORED" ∷ "SHORT_RESTORED" ∷ "LONG_WATCH" ∷ "SHORT_WATCH"
    ∷ "CANDLE_CLOSE_ANALYSIS_15M" ∷ "CANDLE_CLOSE_ANALYSIS_1H" ∷ "CANDLE_CLOSE_ANALYSIS_COMBINED"
    ∷ "TIMEFRAME_DIVERGENCE" ∷ "BIAS_TRANSITION" ∷ "SCORE_NEAR_TIE" ∷ "TRUE_ENGINE_CONFLICT"
    ∷ "SYSTEM_STATE_INVARIANT_BLOCKED" ∷ []

-- `INFO`
abbrev pub info_events : List String
info_events = "REGIME_MAJOR_CHANGE" ∷ "MARKET_CLOSED" ∷ "SETUP_CREATED" ∷ "SETUP_ARMED" ∷ []

abbrev pub silent_events : List String
silent_events =
    "DELIVERY_UNKNOWN" ∷ "HEARTBEAT" ∷ "CANDLE_FINALIZED" ∷ "OPPORTUNITY_COVERAGE_GAP" ∷ []

abbrev pub report_events : List String
report_events =
    "CANDLE_CLOSE_ANALYSIS_15M" ∷ "CANDLE_CLOSE_ANALYSIS_1H" ∷ "CANDLE_CLOSE_ANALYSIS_COMBINED" ∷ []

abbrev pub market_state_events : List String
market_state_events = "TIMEFRAME_DIVERGENCE" ∷ "BIAS_TRANSITION" ∷ "SCORE_NEAR_TIE" ∷ []

abbrev pub system_events : List String
system_events = "TRUE_ENGINE_CONFLICT" ∷ "SYSTEM_STATE_INVARIANT_BLOCKED" ∷ []

abbrev pub delay_events : List String
delay_events = "DATA_DELAYED" ∷ "DATA_STALE" ∷ []

abbrev pub position_events : List String
position_events =
    "EXIT_NOW" ∷ "EXIT_ZONE_REACHED" ∷ "EARLY_EXIT" ∷ "STOP_TRIGGERED" ∷ "POSITION_DEFEND"
    ∷ "TP1_HIT" ∷ "TP2_HIT" ∷ "TP3_HIT" ∷ "TAKE_PROFIT_1" ∷ "TAKE_PROFIT_2" ∷ "TAKE_PROFIT_3"
    ∷ "TRAILING_STOP_UPDATE" ∷ []

abbrev pub entry_events : List String
entry_events = "ENTRY_READY" ∷ "PROBE_READY" ∷ "ENTRY_NOW" ∷ []

abbrev pub invalidation_events : List String
invalidation_events =
    "SETUP_INVALIDATED" ∷ "ENTRY_INVALIDATED" ∷ "EARLY_ENTRY_INVALIDATED"
    ∷ "RECOVERY_SETUP_INVALIDATED" ∷ "DEFENSE_BROKEN_CONFIRMED" ∷ []

abbrev pub invalid_states : List String
invalid_states =
    "INVALIDATED" ∷ "SETUP_INVALIDATED" ∷ "PULLBACK_INVALIDATED" ∷ "EXPIRED" ∷ "SETUP_EXPIRED" ∷ []

abbrev pub intrabar_events : List String
intrabar_events = "LONG_INVALIDATING" ∷ "SHORT_INVALIDATING" ∷ []

abbrev pub prepare_events : List String
prepare_events = "EARLY_ENTRY_PREPARE" ∷ "EARLY_ENTRY_REPLACED" ∷ []

abbrev pub watch_events : List String
watch_events =
    "EARLY_ENTRY_WATCH" ∷ "ENTRY_APPROACHING" ∷ "RETRACE_APPROACHING" ∷ "RETRACE_ZONE_ENTERED" ∷ []

abbrev pub missed_events : List String
missed_events = "MISSED_ENTRY" ∷ "EARLY_ENTRY_MISSED" ∷ "PRICE_RAN_AWAY" ∷ []

abbrev pub bias_events : List String
bias_events =
    "BIAS_CHANGE" ∷ "REGIME_MAJOR_CHANGE" ∷ "BULLISH_RECOVERY" ∷ "BEARISH_RECOVERY"
    ∷ "FALSE_BREAKOUT" ∷ "MARKET_BEHAVIOR_CHANGED" ∷ "LONG_RESTORED" ∷ "SHORT_RESTORED"
    ∷ "LONG_WATCH" ∷ "SHORT_WATCH" ∷ []

abbrev pub evidence_events : List String
evidence_events =
    "FIRST_REJECTION" ∷ "REPEATED_REJECTION" ∷ "FAILED_BREAKOUT" ∷ "SUPPORT_BREAK_PENDING_CLOSE"
    ∷ "SUPPORT_BROKEN" ∷ "SUPPORT_RECLAIMED" ∷ []

abbrev pub position_states : List String
position_states = "POSITION_WARNING" ∷ "POSITION_DEFENSIVE" ∷ "POSITION_INVALIDATED" ∷ []

abbrev pub state_candidates : List String
state_candidates = "STATE_CHANGED" ∷ "PULLBACK_ZONE_UPDATED" ∷ "NEW_RECLAIM_EVENT" ∷ []

abbrev pub no_change_events : List String
no_change_events = "NO_TRADE" ∷ "WAIT" ∷ "DECISION_UPDATED" ∷ []

abbrev pub quick_events : List String
quick_events = "ENTRY_NOW" ∷ "ENTRY_READY" ∷ []

abbrev pub half_hour_events : List String
half_hour_events =
    "WAIT_RETEST" ∷ "DOUBLE_SWEEP_CONFIRMED" ∷ "DATA_RECOVERED" ∷ "FAKE_BREAKOUT_CONFIRMED"
    ∷ "OPPOSITE_SETUP_CONFIRMED" ∷ []

abbrev pub lasting_events : List String
lasting_events =
    "STOP_TRIGGERED" ∷ "POSITION_EXIT" ∷ "POSITION_DEFEND" ∷ "SOFT_INVALIDATED" ∷ "HARD_INVALIDATED"
    ∷ []
