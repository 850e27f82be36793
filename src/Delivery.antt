-- ===== src/Delivery.antt =====
-- app/services/pre_delivery_trade_safety.py: the check of an entry at the moment of its delivery, and
-- the gate of the readers. Prices are ticks, ratios and factors in hundredths, times and ages in
-- seconds; a value that is missing or cannot be read is none. A time in the future has age 0, which
-- no limit refuses. Whether an event's name contains a word is a Boolean. The snapshot, the texts and
-- the digest are left out.
pub mod Safety
pub mod Readers
mod Tests
use vi_xauusd.Prelude.{
  ltb, leb, ◌==◌, if◌then◌else◌, is_some, or_else, and_some, ℕ, ◌-◌, ◌*◌, max, String, Bool, true,
  false, not, ◌&&◌, ◌||◌, Option, none, some, List, [], ◌∷◌, ◌++◌, str_eq,
}
use vi_xauusd.Prelude.Rounding.{distance}
use vi_xauusd.Positions.{Side, long, short}
use vi_xauusd.Pricing.{calculate_risk_reward}

pub data Action : Type 0 where
  enter : Side → Action
  other_action : String → Action

pub record Settings : Type 0 where
  pub entry_ready_max_queue_age : ℕ
  pub entry_approaching_max_queue_age : ℕ
  pub update_max_queue_age : ℕ
  pub tick_max_age : ℕ
  pub closed_candle_max_age : ℕ
  pub max_decision_age : ℕ
  pub drift_atr_ratio : ℕ
  pub drift_min_delta : ℕ
  pub spread_max_abs : ℕ
  pub spread_max_atr15_mult : ℕ
  pub estimated_slippage : ℕ
  pub absolute_min_rr : ℕ
  pub assistant_min_rr : ℕ

-- The payload of the current decision.
pub record Payload : Type 0 where
  pub final_action : Action
  pub state : String
  pub can_enter : Bool
  pub primary_reason : String
  pub risk_gate : String
  pub created_at : Option ℕ
  -- `decisionCreatedAt`, or else `evaluatedAt`.
  pub decided_at : Option ℕ
  pub current_price : Option ℕ
  pub atr15 : ℕ
  pub source_candle : Option ℕ
  pub selected_scenario_version : ℕ
  pub entry_low : Option ℕ
  pub entry_high : Option ℕ
  pub chase_limit : Option ℕ
  pub invalidation_price : Option ℕ
  pub targets : List (Option ℕ)
  -- `entryReadyValidUntil`, or else `validUntil`.
  pub valid_until : Option ℕ

-- The row of the current decision.
pub record CurrentRow : Type 0 where
  pub decision_id : String
  pub decision_version : ℕ
  pub scenario_version : ℕ
  pub payload : Payload
  pub updated_at : ℕ

pub record Queued : Type 0 where
  pub queued_decision : Action
  pub queued_id : String
  pub queued_version : ℕ
  pub queued_scenario_version : ℕ
  pub names_entry_ready : Bool
  pub names_approach : Bool

pub record Tick : Type 0 where
  pub bid : ℕ
  pub ask : ℕ
  pub mid : ℕ
  pub spread : ℕ
  pub quote_time : ℕ

-- What the database answers: the current decision, the latest price and the close of the latest
-- closed candle.
pub record Market : Type 0 where
  pub current : Option CurrentRow
  pub tick : Option Tick
  pub latest_candle : Option ℕ

pub data Reason : Type 0 where
  non_entry_legacy current_decision_missing superseded_decision non_entry_current : Reason
  latest_tick_stale candle_data_missing new_closed_candle latest_closed_candle_stale : Reason
  scenario_superseded entry_plan_incomplete invalid_entry_plan entry_price_out_of_range : Reason
  chase_limit_exceeded invalidation_already_triggered target_already_reached : Reason
  notification_too_old stale_decision entry_ready_expired price_drift spread_too_high : Reason
  rr_revalidation_failed risk_gate_not_ready pass : Reason

pub record DeliverySafety : Type 0 where
  pub allowed : Bool
  pub reason : Reason
  -- The action that the rendered payload states.
  pub rendered_action : Action

abbrev pub is_enter : Action → Bool
is_enter (enter side) = true
is_enter (other_action s) = false

unfoldable pub queue_ttl : Settings → Queued → Action → ℕ
queue_ttl c q action =
    if is_enter action || q.names_entry_ready
    then c.entry_ready_max_queue_age
    else if q.names_approach
    then c.entry_approaching_max_queue_age
    else c.update_max_queue_age

abbrev pub blocked : Reason → Action → DeliverySafety
blocked r a = record { allowed = false; reason = r; rendered_action = a }

-- The age is known and within the limit.
abbrev pub is_recent : ℕ → ℕ → Option ℕ → Bool
is_recent now limit t = and_some t (λ x. leb (now - x) limit)

abbrev pub side_price : Side → Tick → ℕ
side_price long t = t.ask
side_price short t = t.bid

-- The first target that is a number.
abbrev pub first_number : List (Option ℕ) → Option ℕ
first_number [] = none
first_number (none ∷ ts) = first_number ts
first_number (some t ∷ ts) = some t

-- A complete entry plan at the price of the delivery.
pub record Plan : Type 0 where
  pub price : ℕ
  pub low : ℕ
  pub high : ℕ
  pub chase : ℕ
  pub stop : ℕ
  pub target : ℕ

abbrev pub plan_with : ℕ → Option ℕ → Option ℕ → Option ℕ → Option ℕ → Option ℕ → Option Plan
plan_with price (some low) (some high) (some chase) (some stop) (some target) =
    some (record {
      price = price;
      low = low;
      high = high;
      chase = chase;
      stop = stop;
      target = target;
    })
plan_with price _ _ _ _ _ = none

abbrev pub plan_of : ℕ → Payload → Option Plan
plan_of price p =
    plan_with price p.entry_low p.entry_high p.chase_limit p.invalidation_price
      (first_number p.targets)

-- The first price lies beyond the second one in the favourable direction.
abbrev pub is_past : Side → ℕ → ℕ → Bool
is_past long a b = ltb b a
is_past short a b = ltb a b

abbrev pub zone_end : Side → Plan → ℕ
zone_end long p = p.high
zone_end short p = p.low

abbrev pub required_rr : Settings → String → ℕ
required_rr c gate = if str_eq gate "PROBE_READY" then c.absolute_min_rr else c.assistant_min_rr

abbrev pub effective_rr : Settings → Side → Tick → Plan → Option ℕ
effective_rr c side t p =
    calculate_risk_reward side p.price p.stop p.target
      (record { spread = t.spread; slippage = c.estimated_slippage; fees = 0 })

-- The tests of the prices in the order of the code, each with its reason.
unfoldable pub price_checks : Side → Plan → List (Bool × Reason)
price_checks side p =
    (not (is_past side (zone_end side p) p.chase), invalid_entry_plan)
    ∷ (leb p.low p.price && leb p.price p.high, entry_price_out_of_range)
    ∷ (not (is_past side p.price p.chase), chase_limit_exceeded)
    ∷ (is_past side p.price p.stop, invalidation_already_triggered)
    ∷ (is_past side p.target p.price, target_already_reached)
    ∷ []

unfoldable pub age_checks : Settings → ℕ → ℕ → Queued → Payload → Tick → Plan → List (Bool × Reason)
unfolding queue_ttl
age_checks c now queued_at q p t plan =
    (leb (now - queued_at) (queue_ttl c q p.final_action), notification_too_old)
    ∷ (is_recent now c.max_decision_age p.decided_at, stale_decision)
    ∷ (and_some p.valid_until (λ u. leb now u), entry_ready_expired)
    ∷ (
      and_some p.current_price (λ d.
          leb (100 * distance plan.price d)
            (max (p.atr15 * c.drift_atr_ratio) (100 * c.drift_min_delta))),
      price_drift,
    )
    ∷ (
      leb (100 * t.spread) (max (100 * c.spread_max_abs) (c.spread_max_atr15_mult * p.atr15)),
      spread_too_high,
    )
    ∷ []

unfoldable pub ratio_checks : Settings → Side → Payload → Tick → Plan → List (Bool × Reason)
ratio_checks c side p t plan =
    (
      leb (required_rr c p.risk_gate) (or_else (effective_rr c side t plan) 0),
      rr_revalidation_failed,
    )
    ∷ (str_eq p.risk_gate "ENTRY_READY" || str_eq p.risk_gate "PROBE_READY", risk_gate_not_ready)
    ∷ []

-- The tests of the candles and of the scenario.
unfoldable pub candle_checks : Settings → ℕ → Queued → Payload → Option ℕ → List (Bool × Reason)
candle_checks c now q p latest =
    (is_some latest && is_some p.source_candle, candle_data_missing)
    ∷ (leb (or_else latest 0) (or_else p.source_candle 0), new_closed_candle)
    ∷ (is_recent now c.closed_candle_max_age latest, latest_closed_candle_stale)
    ∷ (q.queued_scenario_version == p.selected_scenario_version, scenario_superseded)
    ∷ []

-- The reason of the first test that fails.
abbrev pub first_failed : List (Bool × Reason) → Reason
first_failed [] = pass
first_failed ((ok, r) ∷ cs) = let rest = first_failed cs in if ok then rest else r

abbrev pub plan_checks :
    Settings → ℕ → ℕ → Queued → Payload → Side → Tick → Option Plan → List (Bool × Reason)
plan_checks c now queued_at q p side t none = (false, entry_plan_incomplete) ∷ []
plan_checks c now queued_at q p side t (some plan) =
    price_checks side plan
    ++ (age_checks c now queued_at q p t plan ++ ratio_checks c side p t plan)

unfoldable pub entry_reason :
    Settings → ℕ → ℕ → Queued → Payload → Side → Option Tick → Option ℕ → Reason
entry_reason c now queued_at q p side none latest = latest_tick_stale
entry_reason c now queued_at q p side (some t) latest =
    if not (leb (now - t.quote_time) c.tick_max_age)
    then latest_tick_stale
    else first_failed (
        candle_checks c now q p latest
        ++ plan_checks c now queued_at q p side t (plan_of (side_price side t) p))

abbrev pub is_pass : Reason → Bool
is_pass pass = true
is_pass _ = false

abbrev pub is_superseded : Queued → CurrentRow → Bool
is_superseded q r =
    not (str_eq q.queued_id r.decision_id) || not (q.queued_version == r.decision_version)

abbrev pub check_entry :
    Settings → ℕ → ℕ → Queued → Payload → Market → Action → Action → DeliverySafety
check_entry c now queued_at q p m (enter s) (enter side) =
    let r = entry_reason c now queued_at q p side m.tick m.latest_candle in
    record { allowed = is_pass r; reason = r; rendered_action = enter side }
check_entry c now queued_at q p m queued action = record {
  allowed = true;
  reason = non_entry_current;
  rendered_action = action;
}

abbrev pub check_row : Settings → ℕ → ℕ → Queued → Market → Option CurrentRow → DeliverySafety
check_row c now queued_at q m none =
    if is_enter q.queued_decision
    then blocked current_decision_missing q.queued_decision
    else record { allowed = true; reason = non_entry_legacy; rendered_action = q.queued_decision }
check_row c now queued_at q m (some r) =
    if is_enter q.queued_decision && is_superseded q r
    then blocked superseded_decision r.payload.final_action
    else check_entry c now queued_at q r.payload m q.queued_decision r.payload.final_action

unfoldable pub validate_pre_delivery : Settings → ℕ → ℕ → Queued → Market → DeliverySafety
validate_pre_delivery c now queued_at q m = check_row c now queued_at q m m.current

abbrev pub is_missed : Reason → Bool
is_missed entry_price_out_of_range = true
is_missed chase_limit_exceeded = true
is_missed price_drift = true
is_missed notification_too_old = true
is_missed _ = false

unfoldable pub blocked_entry_payload : Payload → Reason → Payload
blocked_entry_payload p r = record p {
  final_action = other_action (if is_missed r then "WAIT" else "NO_TRADE");
  state = if is_missed r then "WAIT_RETEST" else "NO_TRADE";
  can_enter = false;
  primary_reason = if is_missed r then "OVEREXTENDED" else "SYSTEM_DECISION_CONFLICT";
  risk_gate = if is_missed r then "ENTRY_MISSED" else "INTERNAL_CONFLICT";
}

-- The queued payload that the reader's gate makes up: it has no final decision, without which the name
-- of its event is not read.
abbrev pub synthetic : CurrentRow → Queued
synthetic r = record {
  queued_decision = other_action "";
  queued_id = r.decision_id;
  queued_version = r.decision_version;
  queued_scenario_version = r.scenario_version;
  names_entry_ready = false;
  names_approach = false;
}

abbrev pub read_row : Settings → ℕ → Market → Option CurrentRow → Option Payload
read_row c now m none = none
read_row c now m (some r) =
    let v =
      validate_pre_delivery c now (or_else r.payload.created_at r.updated_at) (synthetic r) m in
    some (if v.allowed then r.payload else blocked_entry_payload r.payload v.reason)

unfoldable pub get_delivery_safe_current_decision : Settings → ℕ → Market → Option Payload
get_delivery_safe_current_decision c now m = read_row c now m m.current
