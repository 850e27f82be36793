-- ===== src/SetupLifecycle.antt =====
-- app/engines/setup_lifecycle.py: the lifecycle of one entry setup. Prices are numbers of ticks,
-- timestamps are their ISO texts, and the Chinese reasons are a data type. `clock` is the text of
-- the current time, which the code reads where no evaluation time is given.
pub mod Transitions
mod Tests
pub mod Runs
pub mod Milestones
use vi_xauusd.Prelude.{
  ltb, leb, if◌then◌else◌, is_some, and_some, ℕ, String, Bool, true, false, not, ◌&&◌, ◌||◌, Option,
  none, some, str_eq,
}

pub data State : Type 0 where
  wait_confirmation : State
  confirmed_wait_retest : State
  entry_ready : State
  missed_entry : State
  invalidated : State
  archived : State

pub data Direction : Type 0 where
  long : Direction
  short : Direction
  neither : Direction

pub data Reason : Type 0 where
  removed_from_decisions : Reason
  plan_invalidated : Reason
  close_not_confirmed : Reason
  left_entry_zone : Reason
  all_conditions_passed : Reason
  outside_entry_zone : Reason
  risk_controls_failed : Reason
  illegal_transition : State → State → Reason

pub record Lifecycle : Type 0 where
  pub setup_id : String
  pub created_at : String
  pub state : State
  pub direction : Direction
  pub confirmation_price : Option ℕ
  pub confirmed_at : Option String
  pub confirmed_candle_time : Option String
  pub entry_zone_low : Option ℕ
  pub entry_zone_high : Option ℕ
  pub entry_ready_at : Option String
  pub entry_window_opened_at : Option String
  pub entry_notification_sent_at : Option String
  pub was_entry_ready : Bool
  pub zone_touched : Bool
  pub setup_armed : Bool
  pub entry_was_actionable : Bool
  pub missed_at : Option String
  pub invalidated_at : Option String
  pub archived_at : Option String
  pub state_reason : Reason

-- The arguments of one evaluation.
pub record Inputs : Type 0 where
  pub new_setup_id : String
  pub new_direction : Direction
  pub confirmation : Option ℕ
  pub latest_closed_price : Option ℕ
  pub closed_candle_time : String
  pub current_price : ℕ
  pub zone_low : Option ℕ
  pub zone_high : Option ℕ
  pub risk_controls_passed : Bool
  pub calculated_at : String
  pub is_invalidated : Bool
  pub clock : String

-- `LEGAL_TRANSITIONS`
pub legal : State → State → Bool
legal wait_confirmation missed_entry = false
legal wait_confirmation archived = false
legal wait_confirmation _ = true
legal confirmed_wait_retest confirmed_wait_retest = true
legal confirmed_wait_retest entry_ready = true
legal confirmed_wait_retest invalidated = true
legal confirmed_wait_retest _ = false
legal entry_ready entry_ready = true
legal entry_ready missed_entry = true
legal entry_ready invalidated = true
legal entry_ready _ = false
legal missed_entry missed_entry = true
legal missed_entry invalidated = true
legal missed_entry _ = false
legal invalidated invalidated = true
legal invalidated archived = true
legal invalidated _ = false
legal archived archived = true
legal archived _ = false

-- `_now(calculated_at)`
abbrev pub stamp : Inputs → String
stamp i = if str_eq i.calculated_at "" then i.clock else i.calculated_at

abbrev pub is_text : Option String → Bool
is_text none = false
is_text (some s) = if str_eq s "" then false else true

-- `t or d`
abbrev pub or_text : Option String → String → Option String
or_text none d = some d
or_text (some s) d = if str_eq s "" then some d else some s

abbrev pub same_setup : Option Lifecycle → Inputs → Bool
same_setup none i = false
same_setup (some p) i = not (str_eq i.new_setup_id "") && str_eq p.setup_id i.new_setup_id

-- What a new setup starts from.
pub blank : Inputs → Lifecycle
blank i = record {
  setup_id = i.new_setup_id;
  created_at = stamp i;
  state = wait_confirmation;
  direction = i.new_direction;
  confirmation_price = i.confirmation;
  confirmed_at = none;
  confirmed_candle_time = none;
  entry_zone_low = i.zone_low;
  entry_zone_high = i.zone_high;
  entry_ready_at = none;
  entry_window_opened_at = none;
  entry_notification_sent_at = none;
  was_entry_ready = false;
  zone_touched = false;
  setup_armed = false;
  entry_was_actionable = false;
  missed_at = none;
  invalidated_at = none;
  archived_at = none;
  state_reason = close_not_confirmed;
}

-- The stored values of the same setup, under the arguments of this evaluation.
pub carried : Lifecycle → Inputs → Lifecycle
carried p i = record p {
  setup_id = i.new_setup_id;
  direction = i.new_direction;
  confirmation_price = i.confirmation;
  entry_zone_low = i.zone_low;
  entry_zone_high = i.zone_high;
}

pub start_from : Option Lifecycle → Inputs → Lifecycle
unfolding blank carried
start_from none i = blank i
start_from (some p) i = if same_setup (some p) i then carried p i else blank i

abbrev pub beyond : Direction → ℕ → ℕ → Bool
beyond long closed level = ltb level closed
beyond short closed level = ltb closed level
beyond neither closed level = false

pub confirmed : Inputs → Bool
confirmed i =
    not (is_some i.confirmation)
    || and_some i.latest_closed_price
        (λ closed. and_some i.confirmation (λ level. beyond i.new_direction closed level))

pub in_zone : Inputs → Bool
in_zone i =
    and_some i.zone_low (λ low. leb low i.current_price)
    && and_some i.zone_high (λ high. leb i.current_price high)

-- The desired state with its reason, in the `state` fields of the result.
pub when_invalidated : Lifecycle → Inputs → Lifecycle
when_invalidated s i = elim (s.state) [
  | invalidated ↦ record s {
    state = archived;
    state_reason = removed_from_decisions;
    archived_at = or_text s.archived_at (stamp i);
  }
  | _ ↦ record s {
    state = invalidated;
    state_reason = plan_invalidated;
    invalidated_at = or_text s.invalidated_at (stamp i);
  }
]

pub when_confirmed : Lifecycle → Inputs → Lifecycle
unfolding in_zone
when_confirmed s i =
    let t = record s {
      confirmed_at = or_text s.confirmed_at (stamp i);
      confirmed_candle_time = or_text s.confirmed_candle_time i.closed_candle_time;
      setup_armed = true;
    } in
    if t.zone_touched
      && t.entry_was_actionable
      && t.was_entry_ready
      && is_text t.entry_notification_sent_at
      && not (in_zone i)
    then record t {
      state = missed_entry;
      state_reason = left_entry_zone;
      missed_at = or_text t.missed_at (stamp i);
    }
    else if in_zone i && i.risk_controls_passed
    then record t {
      state = entry_ready;
      state_reason = all_conditions_passed;
      was_entry_ready = true;
      entry_was_actionable = true;
      entry_ready_at = or_text t.entry_ready_at (stamp i);
      entry_window_opened_at = or_text t.entry_window_opened_at (stamp i);
    }
    else record t {
      state = confirmed_wait_retest;
      state_reason = if in_zone i then risk_controls_failed else outside_entry_zone;
    }

pub when_live : Lifecycle → Inputs → Lifecycle
unfolding when_confirmed confirmed in_zone
when_live s i =
    let t = record s { zone_touched = s.zone_touched || in_zone i } in
    if confirmed i
    then when_confirmed t i
    else record t { state = wait_confirmation; state_reason = close_not_confirmed }

-- A transition that is not legal leaves the old state.
pub settle : State → Lifecycle → Lifecycle
unfolding legal
settle old s =
    if legal old s.state
    then s
    else record s { state = old; state_reason = illegal_transition old s.state }

pub evaluate_setup_lifecycle : Option Lifecycle → Inputs → Lifecycle
unfolding start_from when_invalidated when_live settle
evaluate_setup_lifecycle previous i =
    let s = start_from previous i in
    settle s.state (if i.is_invalidated then when_invalidated s i else when_live s i)

pub mark_entry_notification_sent : Lifecycle → String → Lifecycle
mark_entry_notification_sent s sent_at = elim (s.state) [
  | entry_ready ↦ record s {
    entry_notification_sent_at = some sent_at;
    was_entry_ready = true;
    zone_touched = true;
    setup_armed = true;
    entry_was_actionable = true;
  }
  | _ ↦ s
]
