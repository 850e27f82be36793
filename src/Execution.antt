-- ===== src/Execution.antt =====
-- app/engines/scenario_execution.py: whether a scenario is valid and may be executed. Prices are ticks;
-- texts are in capitals, as the code makes them. `Consistency` and `Contract` are the two checks of
-- app/engines/decision_consistency.py.
mod Tests
pub mod Permission
pub mod Consistency
pub mod Contract
use vi_xauusd.Prelude.{
  leb, if◌then◌else◌, and_some, ℕ, String, Bool, true, false, not, ◌&&◌, ◌||◌, Option, List, [],
  ◌∷◌, str_eq,
}

-- A time that is missing, that cannot be read, or a second.
pub data Stamp : Type 0 where
  missing unreadable : Stamp
  at : ℕ → Stamp

pub data Validity : Type 0 where
  active pending_confirmation stale invalidated blocked_by_data : Validity

pub record Scenario : Type 0 where
  pub direction : String
  pub current_price : Option ℕ
  pub invalidation_price : Option ℕ
  pub lifecycle_state : String
  pub data_health : String
  pub entry_confirmation : String
  pub expires_at : Stamp
  pub evaluated_at : Stamp

-- What the caller found out besides.
pub record Checks : Type 0 where
  pub closed_candle_confirmed : Bool
  pub in_executable_zone : Bool
  pub risk_valid : Bool
  pub rr_valid : Bool
  pub stop_valid : Bool

abbrev pub crossed_at : String → ℕ → ℕ → Bool
crossed_at side current invalidation =
    if str_eq side "LONG"
    then leb current invalidation
    else if str_eq side "SHORT"
    then leb invalidation current
    else false

unfoldable pub candidate_crossed_invalidation : Scenario → Bool
candidate_crossed_invalidation s =
    and_some s.current_price (λ c. and_some s.invalidation_price (λ i. crossed_at s.direction c i))

abbrev pub is_terminal : String → Bool
is_terminal l =
    str_eq l "INVALIDATED" || str_eq l "EXPIRED" || str_eq l "ARCHIVED" || str_eq l "MISSED"

abbrev pub not_after : Stamp → Stamp → Bool
not_after missing _ = true
not_after _ missing = true
not_after (at x) (at y) = leb y x
not_after _ _ = false

unfoldable pub candidate_is_fresh : Scenario → Bool
candidate_is_fresh s = not (is_terminal s.lifecycle_state) && not_after s.expires_at s.evaluated_at

abbrev pub is_executable_health : String → Bool
is_executable_health h = str_eq h "HEALTHY" || str_eq h "RECOVERING"

unfoldable pub resolve_scenario_validity : Scenario → Validity
unfolding candidate_crossed_invalidation candidate_is_fresh
resolve_scenario_validity s =
    let l = s.lifecycle_state in
    if not (is_executable_health s.data_health) || str_eq s.entry_confirmation "BLOCKED_BY_DATA"
    then blocked_by_data
    else if candidate_crossed_invalidation s
        || (str_eq l "INVALIDATED" || str_eq l "ARCHIVED" || str_eq l "MISSED")
    then invalidated
    else if not (candidate_is_fresh s) || str_eq l "EXPIRED"
    then stale
    else if not (str_eq s.entry_confirmation "READY")
        || not (str_eq l "ENTRY_READY" || str_eq l "CONFIRMED")
    then pending_confirmation
    else active

abbrev pub is_active : Validity → Bool
is_active active = true
is_active _ = false

-- The names of the checks that fail.
abbrev pub failed {ℓ} : {A : Type ℓ} → List (Bool × A) → List A
failed [] = []
failed ((passed, name) ∷ cs) = let rest = failed cs in if passed then rest else name ∷ rest

abbrev pub is_empty_list {ℓ} : {A : Type ℓ} → List A → Bool
is_empty_list [] = true
is_empty_list (x ∷ xs) = false

-- The dictionary `checks`.
unfoldable pub execution_checks : Scenario → Checks → List (Bool × String)
unfolding resolve_scenario_validity candidate_is_fresh
execution_checks s c =
    (is_executable_health s.data_health, "dataHealth")
    ∷ (str_eq s.entry_confirmation "READY", "entryConfirmation")
    ∷ (is_active (resolve_scenario_validity s), "scenarioValidity")
    ∷ (c.closed_candle_confirmed, "closedCandleConfirmation")
    ∷ (c.in_executable_zone, "inExecutableZone")
    ∷ (c.risk_valid, "riskValidation")
    ∷ (c.rr_valid, "rrValidation")
    ∷ (candidate_is_fresh s, "candidateFreshness")
    ∷ (c.stop_valid, "stopValidation")
    ∷ []

-- `blockedReasons`
unfoldable pub blocked_reasons : Scenario → Checks → List String
unfolding execution_checks
blocked_reasons s c = failed (execution_checks s c)

-- `executionAllowed`
unfoldable pub can_execute_scenario : Scenario → Checks → Bool
unfolding blocked_reasons
can_execute_scenario s c = is_empty_list (blocked_reasons s c)
