-- ===== src/Outbox/Row.antt =====
-- app/db/models.py, `TelegramNotification`: one durable delivery. Times are in microseconds.
use vi_xauusd.Prelude.{◌==◌, and_some, ℕ, String, Bool, true, false, not, Option}

pub data Status : Type 0 where
  pending : Status
  failed : Status
  retrying : Status
  edit_pending : Status
  sent : Status
  confirmed : Status
  delivery_unknown : Status
  cancelled : Status

-- A number for the status in the table.
abbrev pub number : Status → ℕ
number pending = 0
number failed = 1
number retrying = 2
number edit_pending = 3
number sent = 4
number confirmed = 5
number delivery_unknown = 6
number cancelled = 7

abbrev pub same_status : Status → Status → Bool
same_status s t = number s == number t

-- Which special treatment an event type gets: the test notification, the three candle-close
-- reports, the two entry events, or none.
pub data Kind : Type 0 where
  test_notification : Kind
  close_report : Kind
  entry_event : Kind
  market_event : Kind

pub record Row : Type 0 where
  pub id : ℕ
  pub event_id : String
  pub status : Status
  pub attempts : ℕ
  pub state_version : ℕ
  pub message_id : Option String
  pub sent_at : Option ℕ
  pub next_attempt_at : Option ℕ
  pub last_error : String
  pub cancellation_reason : String
  pub sender_worker_id : String
  pub decision_id : String
  pub created_at : ℕ
  pub updated_at : ℕ

-- What the delivery reads of the event that the row belongs to.
pub record Message : Type 0 where
  pub kind : Kind
  pub generated_at : Option ℕ
  pub setup_id : String
  pub lifecycle_is_ready : Bool
  pub report_key : String
  pub can_enter : Bool

-- The row of `CurrentFinalDecision`, as far as the outbox reads it.
pub record Current : Type 0 where
  pub current_decision_id : String
  pub decision_version : ℕ

abbrev pub second : ℕ
second = 1000000

abbrev pub is_test : Kind → Bool
is_test test_notification = true
is_test _ = false

abbrev pub is_close_report : Kind → Bool
is_close_report close_report = true
is_close_report _ = false

abbrev pub is_entry : Kind → Bool
is_entry entry_event = true
is_entry _ = false

-- `current is not None and row.state_version != current.decision_version`
abbrev pub is_outdated : Option Current → Row → Bool
is_outdated current r = and_some current (λ c. not (r.state_version == c.decision_version))
