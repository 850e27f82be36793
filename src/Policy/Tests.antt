-- ===== src/Policy/Tests.antt =====
-- app/services/notification_policy.py at concrete inputs.
use vi_xauusd.Prelude.{String, ◌≡◌, refl, true, false, none, some}
use vi_xauusd.Policy.Tables.{}
use vi_xauusd.Policy.{
  Payload, action, p4, classify_lifecycle, classify_action, is_user_actionable, priority,
  eligibility, actionability_ttl, is_expired,
}
use vi_xauusd.Policy.Urgent.{IsUrgent, eligibility-IsUrgent}

abbrev event_named : String → Payload
event_named e = record {
  event_type = e;
  is_log_only = false;
  current_state = none;
  setup_state = "";
  entry_confirmation = "";
  ends_ready = false;
  starts_entry_ready = false;
  starts_wait = false;
  has_position = false;
  has_active_setup = false;
  has_canonical_setup = false;
  critical_data_block = false;
  recovery_relevant = false;
  can_enter = true;
  market_bias_changed = false;
  names_setup = false;
  has_trigger = false;
  generated_at = some 1000;
}

eligibility-IsUrgent_example : IsUrgent (event_named "EXIT_NOW") 5000
eligibility-IsUrgent_example = eligibility-IsUrgent (event_named "EXIT_NOW") 5000 refl refl

-- After an hour, the order to leave is too old.
late_exit : is_expired (event_named "EXIT_NOW") 5000 ≡ true
unfolding is_expired actionability_ttl
late_exit = refl

-- A soft invalidation, which never expires either, waits for the cooldown.
soft_invalidated : eligibility (event_named "SOFT_INVALIDATED") ≡ record {
  eligible = true;
  reason_code = "ACTIONABLE_LIFECYCLE_EVENT";
  level = action;
  user_priority = some p4;
  bypass = false;
}
unfolding eligibility is_user_actionable classify_action classify_lifecycle priority
soft_invalidated = refl

-- An entry is worth sending for five minutes.
late_entry : is_expired (event_named "ENTRY_READY") 1301 ≡ true
unfolding is_expired actionability_ttl
late_entry = refl
