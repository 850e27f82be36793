-- ===== src/Outbox/Enqueue/Data.antt =====
-- app/services/decision_outbox.py and app/db/models.py: the tables that enqueueing works on. A missing
-- text is "" and a missing number 0; the rest of a payload, which only the policy reads, is `content`.
use vi_xauusd.Prelude.{if◌then◌else◌, ℕ, String, Bool, ◌||◌, Option, List, str_eq}
use vi_xauusd.Outbox.Row.{Row, Current}

pub record NoticeDecision : Type 0 where
  pub eligible : Bool
  pub reason_code : String
  pub priority : String

-- An item of `signalFacts`.
pub record Fact : Type 0 where
  pub fact_id : String
  pub fact_content : String

pub record Payload : Type 0 where
  pub event_id : String
  pub event_type : String
  pub symbol : String
  pub decision_id : String
  pub state_version : ℕ
  pub event_version : ℕ
  pub is_log_only : Bool
  pub explicit_key : String
  pub incident_id : String
  pub semantic_key : String
  pub event_key : String
  pub payload_hash : String
  pub market_bias : String
  pub is_reloaded : Bool
  pub scenario_id : String
  pub direction : String
  pub facts : List Fact
  -- Set before the second loop, which then never falls back on `eligibility`.
  pub notice : NoticeDecision
  pub reason : String
  pub content : String

-- `CurrentFinalDecision`, with the text that its bias is read from.
pub record Standing : Type 0 where
  pub current : Current
  pub bias : String

-- `DecisionEvent`
pub record EventRow : Type 0 where
  pub row_event_id : String
  pub row_symbol : String
  pub row_payload : Payload

-- `TelegramNotification`: the columns of the delivery, and those that keep it unique.
pub record Notice : Type 0 where
  pub row : Row
  pub semantic_dedup_key : Option String
  pub notice_key : String
  pub notice_type : String
  pub notice_symbol : String
  pub notice_hash : String

-- `NotificationAudit`
pub record Audit : Type 0 where
  pub audit_event_id : String
  pub audit_eligible : Bool
  pub audit_reason : String
  pub dedupe_key : String

-- The tables. The newest row of a table comes first.
pub record Board : Type 0 where
  pub standing : Option Standing
  pub events : List EventRow
  pub notices : List Notice
  pub audits : List Audit

-- The policy that decides what is worth a message: `aggregate_signal_facts` of one group,
-- `coordinate_notification_intents`, `eligibility`, `validate_notification`, the two digests,
-- `notification_state_regression`, `detect_meaningful_transition` and `is_meaningful_change`.
pub record Policy : Type 0 where
  pub coordinate : String → List Payload → List Payload
  pub eligibility : Payload → NoticeDecision
  pub has_errors : Payload → Bool
  pub semantic_digest : Payload → String
  pub key_digest : String → String → String → String → String
  pub fingerprint : Payload → String
  pub merge : String → List Fact → Payload
  pub regressed : Option Payload → Payload → Bool
  pub transition : Option Payload → Payload → Option String
  pub meaningful : Option Payload → Payload → Bool × String

pub record World : Type 0 where
  pub policy : Policy
  pub market : String
  pub now : ℕ
  pub dedup_cooldown : ℕ
  pub aggregation_window : ℕ

-- What other workers commit while this one handles one event.
pub record Race : Type 0 where
  pub other_events : List EventRow
  pub other_notices : List Notice

abbrev pub is_empty : String → Bool
is_empty t = str_eq t ""

abbrev pub text_or : String → String → String
text_or t d = if is_empty t then d else t

abbrev pub is_test_event : Payload → Bool
is_test_event p = str_eq p.event_type "TEST_NOTIFICATION"

abbrev pub is_report : Payload → Bool
is_report p =
    str_eq p.event_type "CANDLE_CLOSE_ANALYSIS_15M"
    || str_eq p.event_type "CANDLE_CLOSE_ANALYSIS_1H"
    || str_eq p.event_type "CANDLE_CLOSE_ANALYSIS_COMBINED"

abbrev pub type_of : Payload → String
type_of p = text_or p.event_type "DECISION_UPDATED"
