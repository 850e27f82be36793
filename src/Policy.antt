-- ===== src/Policy.antt =====
-- app/services/notification_policy.py: which events reach the user, how urgent they are and how long
-- they are worth sending. Times are seconds. What the name of a state begins and ends with, and whether
-- a key of the payload is there, are Booleans. The comparison with the last message and the key of
-- duplicates are left out: they work on the digests of other modules.
pub mod Tables
pub mod Urgent
mod Tests
use vi_xauusd.Prelude.{
  ltb, if◌then◌else◌, or_else, ℕ, ◌-◌, String, Bool, true, false, not, ◌&&◌, ◌||◌, Option, none,
  some, [], ◌∷◌, str_eq,
}
use vi_xauusd.Policy.Tables.{
  one_of, critical_events, action_events, important_events, info_events, silent_events,
  report_events, market_state_events, system_events, delay_events, position_events, entry_events,
  invalidation_events, invalid_states, intrabar_events, prepare_events, watch_events, missed_events,
  bias_events, evidence_events, position_states, state_candidates, no_change_events, quick_events,
  half_hour_events, lasting_events,
}

pub record Payload : Type 0 where
  -- "DECISION_UPDATED" where it is missing.
  pub event_type : String
  pub is_log_only : Bool
  pub current_state : Option String
  pub setup_state : String
  pub entry_confirmation : String
  pub ends_ready : Bool
  pub starts_entry_ready : Bool
  pub starts_wait : Bool
  pub has_position : Bool
  pub has_active_setup : Bool
  pub has_canonical_setup : Bool
  pub critical_data_block : Bool
  pub recovery_relevant : Bool
  pub can_enter : Bool
  pub market_bias_changed : Bool
  pub names_setup : Bool
  pub has_trigger : Bool
  pub generated_at : Option ℕ

pub data Level : Type 0 where
  critical action important info debug : Level

pub data Urgency : Type 0 where
  p0 p1 p2 p3 p4 p5 p6 p7 p8 log_only : Urgency

pub record Actionable : Type 0 where
  pub actionable : Bool
  pub reason : String
  pub urgency : Urgency

pub record Eligibility : Type 0 where
  pub eligible : Bool
  pub reason_code : String
  pub level : Level
  pub user_priority : Option Urgency
  pub bypass : Bool

-- `currentState`, "WAIT" where it is missing.
abbrev pub state_of : Payload → String
state_of p = or_else p.current_state "WAIT"

unfoldable pub is_critical_block : Payload → Bool
is_critical_block p =
    let s = or_else p.current_state p.setup_state in
    p.critical_data_block
    || (str_eq p.event_type "DATA_STALE"
        || (str_eq (or_else p.current_state "") "DATA_STALE"
            || ((one_of s ("PREPARE" ∷ "ENTRY_READY" ∷ "LONG_READY" ∷ "SHORT_READY" ∷ [])
                  || (p.has_position || (p.has_active_setup || p.has_canonical_setup)))
                && str_eq p.entry_confirmation "BLOCKED_BY_DATA")))

abbrev pub yes_to : String → Urgency → Actionable
yes_to r u = record { actionable = true; reason = r; urgency = u }

abbrev pub no_to : String → Actionable
no_to r = record { actionable = false; reason = r; urgency = log_only }

-- The part of the ladder after the tests of the market's facts.
unfoldable pub classify_lifecycle : Payload → Actionable
classify_lifecycle p =
    let e = p.event_type in
    if one_of e position_states
    then yes_to "POSITION_ACTION" p0
    else if one_of e state_candidates
    then yes_to "SEMANTIC_STATE_CANDIDATE" p4
    else if str_eq e "TRAILING_EXIT"
    then yes_to "POSITION_ACTION" p0
    else if p.starts_wait && (p.names_setup && p.has_trigger)
    then yes_to "WATCH_ACTION" p4
    else if one_of e no_change_events
    then no_to "NO_ACTION_DELTA"
    else if one_of e action_events || (one_of e important_events || one_of e info_events)
    then yes_to "ACTIONABLE_LIFECYCLE_EVENT" p4
    else no_to "LOW_PRIORITY"

-- The part of the ladder after the data events.
unfoldable pub classify_action : Payload → Actionable
classify_action p =
    let e = p.event_type in
    if one_of e critical_events || one_of e position_events
    then yes_to "POSITION_ACTION" p0
    else if one_of e entry_events || ((p.ends_ready || p.starts_entry_ready) && p.can_enter)
    then yes_to "ENTRY_PERMISSION_CHANGED" p1
    else if one_of e invalidation_events || one_of (state_of p) invalid_states
    then yes_to "ACTIVE_SETUP_INVALIDATED" p2
    else if one_of e intrabar_events
    then yes_to "INTRABAR_SAFETY_OVERRIDE" p2
    else if one_of e prepare_events
    then yes_to "PREPARE_ACTION" p3
    else if one_of e watch_events
    then yes_to "WATCH_ACTION" p4
    else if one_of e missed_events
    then yes_to "MISSED_ACTION" p5
    else if one_of e bias_events || p.market_bias_changed
    then yes_to "MATERIAL_BIAS_CHANGE" p6
    else if one_of e evidence_events
    then yes_to "MATERIAL_PRICE_EVIDENCE" p3
    else classify_lifecycle p

unfoldable pub is_user_actionable : Payload → Actionable
is_user_actionable p =
    let e = p.event_type in
    if p.is_log_only || one_of e silent_events
    then no_to "LOG_ONLY_EVENT"
    else if one_of e report_events
    then yes_to "MANDATORY_CANDLE_CLOSE_ANALYSIS" p2
    else if one_of e market_state_events
    then yes_to "CANONICAL_MARKET_STATE_CHANGED" p3
    else if one_of e system_events
    then yes_to "CANONICAL_SYSTEM_SAFETY_BLOCK" p0
    else if one_of e delay_events
    then (if is_critical_block p then yes_to "CRITICAL_DATA_BLOCK" p7 else no_to "LOW_PRIORITY")
    else if str_eq e "DATA_RECOVERED"
    then (if p.recovery_relevant
          || (p.has_position || (p.has_active_setup || p.has_canonical_setup))
        then yes_to "ACTIONABLE_DATA_RECOVERY" p8
        else no_to "LOW_PRIORITY")
    else classify_action p

unfoldable pub priority : Payload → Level
priority p =
    let e = p.event_type in
    if one_of e delay_events && p.has_position
    then critical
    else if one_of e critical_events
    then critical
    else if one_of e action_events
    then action
    else if one_of e important_events
    then important
    else if one_of e info_events
    then info
    else debug

abbrev pub urgency_of : Level → Urgency
urgency_of critical = p0
urgency_of action = p1
urgency_of important = p2
urgency_of info = p3
urgency_of debug = p4

-- `NotificationBudget.bypass_cooldown`
abbrev pub bypass_cooldown : Urgency → Bool
bypass_cooldown p0 = true
bypass_cooldown p1 = true
bypass_cooldown _ = false

abbrev pub resolve_urgency : Urgency → Urgency → Urgency
resolve_urgency log_only u = u
resolve_urgency a u = a

unfoldable pub eligibility : Payload → Eligibility
eligibility p =
    let a = is_user_actionable p in
    let u = resolve_urgency a.urgency (urgency_of (priority p)) in
    if str_eq p.event_type "CANDLE_FINALIZED"
    then record {
      eligible = false;
      reason_code = "SKIP_LOW_PRIORITY";
      level = debug;
      user_priority = none;
      bypass = false;
    }
    else if not a.actionable
    then record {
      eligible = false;
      reason_code = a.reason;
      level = debug;
      user_priority = some log_only;
      bypass = false;
    }
    else record {
      eligible = true;
      reason_code = a.reason;
      level = priority p;
      user_priority = some u;
      bypass = bypass_cooldown u;
    }

unfoldable pub actionability_ttl : String → Option ℕ
actionability_ttl e =
    if one_of e quick_events
    then some 300
    else if one_of e half_hour_events
    then some 1800
    else if one_of e lasting_events
    then none
    else some 3600

abbrev pub is_older : ℕ → Option ℕ → Option ℕ → Bool
is_older now none created = false
is_older now (some ttl) none = true
is_older now (some ttl) (some created) = ltb ttl (now - created)

unfoldable pub is_expired : Payload → ℕ → Bool
is_expired p now = is_older now (actionability_ttl p.event_type) p.generated_at
