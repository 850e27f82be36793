-- ===== src/DecisionStore.antt =====
-- app/services/current_decision_store.py: the one current decision of a symbol. A decision is
-- reduced to what the publisher reads or writes of it; a missing text is "", a missing number 0.
-- `digest` stands for the SHA-256 of the named parts, `event_of` for the table of decision events.
mod Tests
pub mod Versions
pub mod Supersession
use vi_xauusd.Prelude.{
  ltb, ◌==◌, if◌then◌else◌, and_some, ℕ, ◌+◌, max, String, Bool, true, false, not, ◌&&◌, ◌||◌,
  Option, none, some, List, [], ◌∷◌, ◌++◌, str_eq,
}
use vi_xauusd.Outbox.Row.{Status, pending, failed, retrying, edit_pending, cancelled, Row}
use Prim.Native.Nat.{Ordering}
use Prim.Native.String.{compare}

pub record Event : Type 0 where
  pub event_type : String
  pub event_setup_id : String
  pub event_state : String
  pub event_candle : String
  pub event_id : String
  pub event_decision_id : String
  pub event_version : ℕ
  pub event_supersedes : String

pub record Decision : Type 0 where
  pub candle : String
  pub data_version : ℕ
  pub evaluated_at : String
  pub signature : String
  pub decision_version : ℕ
  pub supersedes : String
  pub decision_id : String
  pub conflict_type : String
  pub action : String
  pub direction : String
  pub events : List Event

-- The row of `current_final_decisions`.
pub record Stored : Type 0 where
  pub row_decision_id : String
  pub row_version : ℕ
  pub row_signature : String
  pub row_action : String
  pub row_direction : String
  pub row_candle : String
  pub row_data_version : ℕ
  pub row_evaluated_at : String
  pub row_supersedes : String
  pub payload : Decision

pub data Severity : Type 0 where
  p0 : Severity
  p1 : Severity
  p3 : Severity

pub record Conflict : Type 0 where
  pub kind : String
  pub severity : Severity

pub record EventInfo : Type 0 where
  pub is_of_symbol : Bool
  pub is_test_event : Bool
  pub has_version : Bool

pub record Store : Type 0 where
  pub current : Option Stored
  pub monitor : Option Decision
  pub conflicts : List Conflict
  pub notifications : List Row

pub record Context : Type 0 where
  pub now : ℕ
  pub digest : ℕ → String → String
  pub event_digest : String → Event → String
  pub event_of : String → Option EventInfo

-- Python's order on texts.
abbrev pub text_lt : String → String → Bool
text_lt a b = elim (compare a b) [ Ordering.lt ↦ true | _ ↦ false ]

abbrev pub is_empty : String → Bool
is_empty t = str_eq t ""

abbrev pub text_or : String → String → String
text_or t d = if is_empty t then d else t

pub is_out_of_order : Decision → Decision → Bool
is_out_of_order incoming previous =
    (not (is_empty incoming.candle)
      && not (is_empty previous.candle)
      && text_lt incoming.candle previous.candle)
    || (str_eq incoming.candle previous.candle && ltb incoming.data_version previous.data_version)
    || (str_eq incoming.candle previous.candle
        && incoming.data_version == previous.data_version
        && not (is_empty incoming.evaluated_at)
        && not (is_empty previous.evaluated_at)
        && text_lt incoming.evaluated_at previous.evaluated_at)

pub is_changed : Option Stored → Decision → Bool
is_changed none incoming = true
is_changed (some row) incoming = not (str_eq incoming.signature row.row_signature)

pub next_version : Option Stored → Decision → ℕ
unfolding is_changed
next_version none incoming =
    max 1 (if incoming.decision_version == 0 then 1 else incoming.decision_version)
next_version (some row) incoming =
    if is_changed (some row) incoming then row.row_version + 1 else row.row_version

pub superseded_id : Option Stored → Decision → String
unfolding is_changed
superseded_id none incoming = ""
superseded_id (some row) incoming =
    if is_changed (some row) incoming then row.row_decision_id else ""

pub stamp_events : Context → String → ℕ → String → List Event → List Event
stamp_events x id version supersedes [] = []
stamp_events x id version supersedes (e ∷ es) =
    record e {
      event_decision_id = id;
      event_version = version;
      event_supersedes = supersedes;
      event_id = x.event_digest id e;
    }
    ∷ stamp_events x id version supersedes es

-- The snapshot as it is published.
pub stamped : Context → Option Stored → Decision → Decision
unfolding next_version superseded_id stamp_events
stamped x row incoming =
    let version = next_version row incoming in
    let id = x.digest version incoming.signature in
    record incoming {
      decision_version = version;
      supersedes = superseded_id row incoming;
      decision_id = id;
      events = stamp_events x id version (superseded_id row incoming) incoming.events;
    }

pub stored_row : Decision → Stored
stored_row d = record {
  row_decision_id = d.decision_id;
  row_version = d.decision_version;
  row_signature = d.signature;
  row_action = text_or d.action "WAIT";
  row_direction = text_or d.direction "NEUTRAL";
  row_candle = d.candle;
  row_data_version = d.data_version;
  row_evaluated_at = d.evaluated_at;
  row_supersedes = d.supersedes;
  payload = d;
}

abbrev conflict_of : Option Stored → String
conflict_of none = "NO_CONFLICT"
conflict_of (some row) = text_or row.payload.conflict_type "NO_CONFLICT"

pub conflict_records : Option Stored → Decision → List Conflict
conflict_records row incoming =
    let incoming_type = text_or incoming.conflict_type "NO_CONFLICT" in
    if str_eq incoming_type (conflict_of row) || str_eq incoming_type "NO_CONFLICT"
    then []
    else record {
      kind = incoming_type;
      severity = if str_eq incoming_type "TRUE_ENGINE_CONFLICT" then p0 else p3;
    }
      ∷ []

-- `PENDING_NOTIFICATION_STATES`
abbrev pub is_pending_state : Status → Bool
is_pending_state pending = true
is_pending_state failed = true
is_pending_state retrying = true
is_pending_state edit_pending = true
is_pending_state _ = false

-- The query for the stale rows, and the exception for the test notification.
pub is_stale_row : Context → String → Row → Bool
is_stale_row x id r =
    is_pending_state r.status
    && not (is_empty r.decision_id)
    && not (str_eq r.decision_id id)
    && and_some (x.event_of r.event_id)
        (λ e. e.is_of_symbol && (not e.has_version || not e.is_test_event))

pub cancel_stale : Context → String → List Row → List Row
unfolding is_stale_row
cancel_stale x id [] = []
cancel_stale x id (r ∷ rows) =
    (if is_stale_row x id r
      then record r {
        status = cancelled;
        cancellation_reason = "STALE_STATE_VERSION";
        updated_at = x.now;
      }
      else r)
    ∷ cancel_stale x id rows

abbrev payload_of : Option Stored → Decision → Bool
payload_of none incoming = false
payload_of (some row) incoming = is_out_of_order incoming row.payload

abbrev previous_payload : Option Stored → Decision → Decision
previous_payload none d = d
previous_payload (some row) d = row.payload

pub atomic_publish_canonical_snapshot : Context → Store → Decision → Decision × Bool × Store
unfolding is_out_of_order stamped stored_row conflict_records cancel_stale is_changed
atomic_publish_canonical_snapshot x s incoming =
    if payload_of s.current incoming
    then (
      previous_payload s.current incoming,
      false,
      record s {
        conflicts = s.conflicts ++ record { kind = "OUT_OF_ORDER_DECISION"; severity = p1 } ∷ [];
      },
    )
    else let d = stamped x s.current incoming in
      (
        d,
        true,
        record {
          current = some (stored_row d);
          monitor = some d;
          conflicts = s.conflicts ++ conflict_records s.current incoming;
          notifications =
              if is_changed s.current incoming
              then cancel_stale x d.decision_id s.notifications
              else s.notifications;
        },
      )

-- `get_canonical_market_bias`, on the text that the current decision gives.
pub canonical_market_bias : String → String
canonical_market_bias value =
    if str_eq value "LONG"
    then "BULLISH"
    else if str_eq value "SHORT"
    then "BEARISH"
    else if str_eq value "BULLISH" || str_eq value "BEARISH" || str_eq value "NEUTRAL"
    then value
    else "NEUTRAL"
