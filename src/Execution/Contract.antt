-- ===== src/Execution/Contract.antt =====
-- app/engines/decision_consistency.py, `validate_canonical_contract` and `fail_closed_canonical`: the
-- view that the API, the dashboard and the messages share. The errors are in the order of the code,
-- which sorts their names. A missing id is "".
use vi_xauusd.Prelude.{
  ltb, if◌then◌else◌, ltb→lt, Bool-cases, ℕ, ◌+◌, ◌<◌, String, ◌≡◌, refl, ◌≢◌, ◌⊎◌, inl, inr, Bool,
  true, false, not, ◌&&◌, ◌||◌, false≢true, List, [], ◌∷◌, ◌++◌, arith, str_eq,
}
use vi_xauusd.Execution.{failed}
use vi_xauusd.Execution.Permission.{not-true, text_of, append_empty, passed}

pub record Entry : Type 0 where
  pub entry_action : String
  pub entry_allowed : Bool
  pub trade_status : String
  pub selected_id : String
  pub selected_allowed : Bool

pub record Trigger : Type 0 where
  pub trigger_setup : String
  pub trigger_status : String

pub record PositionView : Type 0 where
  pub is_known : Bool
  pub position_action : String
  pub has_values : Bool
  pub has_targets : Bool

pub record Contract : Type 0 where
  pub primary_action : String
  pub entry : Entry
  pub active_id : String
  pub engine_selected_id : String
  pub next_trigger : Trigger
  pub position : PositionView
  pub live_bias_state : String
  pub execution_bias : String
  pub execution_allowed : Bool
  pub rr_valid : Bool
  pub data_stale : Bool
  pub closed_candle_available : Bool
  pub scenario_validity : String
  pub alternatives_allowed : List Bool
  pub consistency_errors : List String

abbrev pub count_true : List Bool → ℕ
count_true [] = 0
count_true (b ∷ bs) = (if b then 1 else 0) + count_true bs

abbrev pub is_blank : String → Bool
is_blank s = str_eq s ""

abbrev pub is_ready_status : String → Bool
is_ready_status s = str_eq s "ENTRY_READY" || str_eq s "PROBE_READY"

-- What an entry needs.
unfoldable pub permission_checks : Contract → List (Bool × String)
permission_checks d =
    (
      not (
          str_eq d.live_bias_state "INVALIDATING"
          || str_eq d.live_bias_state "SUSPENDED"
          || str_eq d.execution_bias "NEUTRAL"),
      "CAN_ENTER_DURING_LIVE_BIAS_SUSPENSION",
    )
    ∷ (d.execution_allowed, "ENTRY_WITH_EXECUTION_BLOCKED")
    ∷ (d.rr_valid, "ENTRY_WITH_RR_BLOCKED")
    ∷ (not d.data_stale && d.closed_candle_available, "ENTRY_WITH_STALE_OR_OPEN_CANDLE")
    ∷ (str_eq d.scenario_validity "ACTIVE", "ENTRY_WITH_INACTIVE_SCENARIO")
    ∷ (is_ready_status d.entry.trade_status, "ENTRY_PERMISSION_STATUS_CONFLICT")
    ∷ []

abbrev pub is_trade : String → Bool
is_trade a = str_eq a "BUY" || str_eq a "SELL"

unfoldable pub identity_checks : Contract → List (Bool × String)
identity_checks d =
    (str_eq d.active_id d.entry.selected_id, "ACTIVE_SETUP_SELECTION_CONFLICT")
    ∷ (
      is_blank d.engine_selected_id || str_eq d.engine_selected_id d.active_id,
      "ENGINE_CANONICAL_SETUP_CONFLICT",
    )
    ∷ (
      is_blank d.next_trigger.trigger_setup
          || is_blank d.active_id
          || str_eq d.next_trigger.trigger_setup d.active_id,
      "NEXT_TRIGGER_SETUP_CONFLICT",
    )
    ∷ (
      not (
          str_eq d.next_trigger.trigger_status "SATISFIED"
          || str_eq d.next_trigger.trigger_status "CLOSED_CONFIRMED"),
      "COMPLETED_TRIGGER_EXPOSED_AS_NEXT",
    )
    ∷ (
      ltb (count_true (d.entry.selected_allowed ∷ d.alternatives_allowed)) 2,
      "MULTIPLE_EXECUTABLE_SETUPS",
    )
    ∷ (d.position.is_known || not d.position.has_values, "UNKNOWN_POSITION_HAS_MANAGEMENT_VALUES")
    ∷ (d.position.is_known || not d.position.has_targets, "UNKNOWN_POSITION_HAS_TARGETS")
    ∷ []

unfoldable pub validate_canonical_contract : Contract → List String
unfolding permission_checks identity_checks
validate_canonical_contract d =
    (if is_trade d.primary_action && not d.entry.entry_allowed
      then "ACTION_WITHOUT_ENTRY_PERMISSION" ∷ []
      else [])
    ++ ((if d.entry.entry_allowed then failed (permission_checks d) else [])
        ++ failed (identity_checks d))

unfoldable pub fail_closed_canonical : Contract → List String → Contract
fail_closed_canonical d errors = record d {
  primary_action = if d.position.is_known then d.position.position_action else "WAIT";
  entry = record d.entry {
    entry_action = "WAIT";
    entry_allowed = false;
    trade_status = "SYSTEM_CONFLICT";
  };
  execution_allowed = false;
  next_trigger = record { trigger_setup = ""; trigger_status = "PENDING" };
  consistency_errors = errors;
}

has_bias :
    (a b : Bool) (bias : String) → not (a || b || str_eq bias "NEUTRAL") ≡ true → bias ≢ "NEUTRAL"
has_bias true b bias h n = absurd (false≢true h)
has_bias false true bias h n = absurd (false≢true h)
has_bias false false bias h n = absurd (false≢true (rw n at h))

live_unsuspended : (a b c : Bool) → not (a || b || c) ≡ true → (a || b) ≡ false
live_unsuspended true b c h = absurd (false≢true h)
live_unsuspended false true c h = absurd (false≢true h)
live_unsuspended false false c h = refl

-- An id that may be left out, and the setup that it names where it is given.
abbrev pub NamesIfGiven : String → String → Type 0
NamesIfGiven id setup = (id ≡ "") ⊎ (id ≡ setup)

names_if_given :
    (id setup : String) → (is_blank id || str_eq id setup) ≡ true → NamesIfGiven id setup
names_if_given id setup h = elim (Bool-cases (is_blank id)) [
  | inl b ↦ inl (text_of id "" b)
  | inr b ↦ inr (text_of id setup (rw b at h))
]

middle_false : (a b c : Bool) → b ≡ false → (a || b || c) ≡ true → (a || c) ≡ true
middle_false a b c e h = ground (arith, e, h)

names_if_both :
    (id setup : String)
    → (is_blank id || is_blank setup || str_eq id setup) ≡ true
    → (setup ≡ "") ⊎ NamesIfGiven id setup
names_if_both id setup h = elim (Bool-cases (is_blank setup)) [
  | inl b ↦ inl (text_of setup "" b)
  | inr b ↦
      inr (
        names_if_given id setup (middle_false (is_blank id) (is_blank setup) (str_eq id setup) b h))
]

-- A decision without an error that permits an entry has an allowed execution, a valid ratio, fresh
-- data with a closed candle, an active scenario, the status of a full or a probing entry, a live bias
-- that is neither invalidating nor suspended and an execution bias that is not neutral. The active
-- setup is the selected one; the engine, if it names a setup, names that one, and so does the next
-- trigger, unless it or the active setup has no id; the trigger is not one that was completed; and at
-- most one of the selected setup and the alternatives may be executed.
pub validate-entry :
    (d : Contract)
    → validate_canonical_contract d ≡ []
    → d.entry.entry_allowed ≡ true
    → ((d.execution_allowed ≡ true)
        × (d.rr_valid ≡ true)
        × ((not d.data_stale && d.closed_candle_available) ≡ true)
        × (d.scenario_validity ≡ "ACTIVE")
        × (is_ready_status d.entry.trade_status ≡ true))
      × ((str_eq d.live_bias_state "INVALIDATING" || str_eq d.live_bias_state "SUSPENDED") ≡ false)
      × (d.execution_bias ≢ "NEUTRAL")
      × (d.active_id ≡ d.entry.selected_id)
      × NamesIfGiven d.engine_selected_id d.active_id
      × ((d.active_id ≡ "") ⊎ NamesIfGiven d.next_trigger.trigger_setup d.active_id)
      × ((str_eq d.next_trigger.trigger_status "SATISFIED"
            || str_eq d.next_trigger.trigger_status "CLOSED_CONFIRMED")
          ≡ false)
      × (count_true (d.entry.selected_allowed ∷ d.alternatives_allowed) < 2)
unfolding validate_canonical_contract permission_checks identity_checks
validate-entry d v e =
    let rest =
      (append_empty
        (if is_trade d.primary_action && not d.entry.entry_allowed
          then "ACTION_WITHOUT_ENTRY_PERMISSION" ∷ []
          else [])
        _ v).1 in
    let parts =
      append_empty (if d.entry.entry_allowed then failed (permission_checks d) else []) _ rest in
    let p = passed (permission_checks d) (rw e at parts.0) in
    let q = passed (identity_checks d) parts.1 in
    (
      (p.1.0, p.1.1.0, p.1.1.1.0, text_of d.scenario_validity "ACTIVE" p.1.1.1.1.0, p.1.1.1.1.1.0),
      live_unsuspended (str_eq d.live_bias_state "INVALIDATING")
          (str_eq d.live_bias_state "SUSPENDED") (str_eq d.execution_bias "NEUTRAL") p.0,
      λ n.
          has_bias (str_eq d.live_bias_state "INVALIDATING") (str_eq d.live_bias_state "SUSPENDED")
            d.execution_bias p.0 n,
      text_of d.active_id d.entry.selected_id q.0,
      names_if_given d.engine_selected_id d.active_id q.1.0,
      names_if_both d.next_trigger.trigger_setup d.active_id q.1.1.0,
      not-true _ q.1.1.1.0,
      ltb→lt _ 2 q.1.1.1.1.0,
    )

-- Failing closed withdraws the permission whatever was decided: what is left of the errors is only
-- about the names of setups, the alternatives and the position.
pub validate-fail_closed :
    (d : Contract) (errors : List String)
    → is_trade d.position.position_action ≡ false
    → (validate_canonical_contract (fail_closed_canonical d errors)
        ≡ failed (identity_checks (fail_closed_canonical d errors)))
      × ((fail_closed_canonical d errors).entry.entry_allowed ≡ false)
      × ((fail_closed_canonical d errors).execution_allowed ≡ false)
      × (is_trade (fail_closed_canonical d errors).primary_action ≡ false)
unfolding validate_canonical_contract fail_closed_canonical
validate-fail_closed d errors h = elim (Bool-cases d.position.is_known) [
  | inl k ↦ rw k (rw h (refl, refl, refl, refl))
  | inr k ↦ rw k (refl, refl, refl, refl)
]
