-- ===== src/Execution/Tests.antt =====
-- The execution gate and the consistency checks at concrete inputs.
use vi_xauusd.Prelude.{
  ℕ, ◌<◌, ◌≡◌, refl, ◌≢◌, ◌⊎◌, ◌↔◌, true, false, not, ◌&&◌, ◌||◌, none, some, [], ◌∷◌, str_eq,
}
use vi_xauusd.Execution.{
  at, Scenario, Checks, candidate_crossed_invalidation, candidate_is_fresh,
  resolve_scenario_validity, execution_checks, blocked_reasons, can_execute_scenario,
}
use vi_xauusd.Execution.Permission.{IsExecutable, can_execute_iff}
use vi_xauusd.Execution.Consistency.{
  enter_long, long, no_side, other_live, gate_probe, lifecycle_confirmed, Decision, same_side,
  is_invalidating, is_reversal, gate_opens, lacks_lifecycle, validate_final_decision,
}
use vi_xauusd.Execution.Consistency.Ordered.{IsInside, IsEntered, IsFacing, validate-IsEntered}
use vi_xauusd.Execution.Contract.{
  Contract, count_true, is_ready_status, NamesIfGiven, permission_checks, identity_checks,
  validate_canonical_contract, validate-entry,
}

abbrev ready : Scenario
ready = record {
  direction = "LONG";
  current_price = some 240000;
  invalidation_price = some 239500;
  lifecycle_state = "ENTRY_READY";
  data_health = "HEALTHY";
  entry_confirmation = "READY";
  expires_at = at 900;
  evaluated_at = at 600;
}

abbrev all_in_order : Checks
all_in_order = record {
  closed_candle_confirmed = true;
  in_executable_zone = true;
  risk_valid = true;
  rr_valid = true;
  stop_valid = true;
}

can_execute_iff_example : (can_execute_scenario ready all_in_order ≡ true) ↔ (
    IsExecutable ready
    × (all_in_order.closed_candle_confirmed ≡ true)
    × (all_in_order.in_executable_zone ≡ true)
    × (all_in_order.risk_valid ≡ true)
    × (all_in_order.rr_valid ≡ true)
    × (all_in_order.stop_valid ≡ true))
can_execute_iff_example = can_execute_iff ready all_in_order

ready_runs : can_execute_scenario ready all_in_order ≡ true
unfolding can_execute_scenario blocked_reasons execution_checks resolve_scenario_validity
    candidate_is_fresh candidate_crossed_invalidation
ready_runs = refl

crossed :
    blocked_reasons (record ready { current_price = some 239500 }) all_in_order
    ≡ "scenarioValidity" ∷ []
unfolding blocked_reasons execution_checks resolve_scenario_validity candidate_is_fresh
    candidate_crossed_invalidation
crossed = refl

abbrev buying : Decision
buying = record {
  final_action = enter_long;
  direction = long;
  low = some 239900;
  high = some 240100;
  current = some 240000;
  chase = some 240200;
  invalidation = some 239500;
  targets = none ∷ some 241000 ∷ [];
  risk_gate = gate_probe;
  lifecycle = lifecycle_confirmed;
  versions = 3 ∷ 3 ∷ [];
  live_state = other_live;
  has_execution_bias = true;
  structural_side = long;
  can_enter = true;
}

validate-IsEntered_example :
    (l : ℕ) × (p : ℕ) × (h : ℕ) × IsInside buying.low buying.current buying.high l p h
    × IsEntered long l p h (some 240200) (some 239500)
    × IsFacing long long l h (some 240200) (some 241000)
    × (is_invalidating buying.live_state ≡ false)
    × ((same_side buying.direction buying.structural_side && is_reversal buying.live_state) ≡ false)
    × (buying.has_execution_bias ≡ true)
    × (gate_opens buying.risk_gate ≡ true)
    × (lacks_lifecycle buying.risk_gate buying.lifecycle ≡ false)
unfolding validate_final_decision
validate-IsEntered_example = validate-IsEntered buying long refl refl refl

-- Without a direction, nothing compares the zone with the first target.
undirected :
    validate_final_decision
      (record buying { direction = no_side; targets = some 230000 ∷ []; chase = some 240000 })
    ≡ []
unfolding validate_final_decision
undirected = refl

abbrev shown : Contract
shown = record {
  primary_action = "BUY";
  entry = record {
    entry_action = "BUY";
    entry_allowed = true;
    trade_status = "ENTRY_READY";
    selected_id = "S1";
    selected_allowed = true;
  };
  active_id = "S1";
  engine_selected_id = "S1";
  next_trigger = record { trigger_setup = ""; trigger_status = "PENDING" };
  position = record {
    is_known = false;
    position_action = "";
    has_values = false;
    has_targets = false;
  };
  live_bias_state = "ALIGNED";
  execution_bias = "LONG";
  execution_allowed = true;
  rr_valid = true;
  data_stale = false;
  closed_candle_available = true;
  scenario_validity = "ACTIVE";
  alternatives_allowed = false ∷ [];
  consistency_errors = [];
}

validate-entry_example :
    ((shown.execution_allowed ≡ true)
      × (shown.rr_valid ≡ true)
      × ((not shown.data_stale && shown.closed_candle_available) ≡ true)
      × (shown.scenario_validity ≡ "ACTIVE")
      × (is_ready_status shown.entry.trade_status ≡ true))
    × ((str_eq shown.live_bias_state "INVALIDATING" || str_eq shown.live_bias_state "SUSPENDED")
        ≡ false)
    × (shown.execution_bias ≢ "NEUTRAL")
    × (shown.active_id ≡ shown.entry.selected_id)
    × NamesIfGiven shown.engine_selected_id shown.active_id
    × ((shown.active_id ≡ "") ⊎ NamesIfGiven shown.next_trigger.trigger_setup shown.active_id)
    × ((str_eq shown.next_trigger.trigger_status "SATISFIED"
          || str_eq shown.next_trigger.trigger_status "CLOSED_CONFIRMED")
        ≡ false)
    × (count_true (shown.entry.selected_allowed ∷ shown.alternatives_allowed) < 2)
unfolding validate_canonical_contract permission_checks identity_checks
validate-entry_example = validate-entry shown refl refl

-- Two setups at once.
abbrev torn : Contract
torn = record shown { active_id = "S2" }
