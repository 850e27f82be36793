-- ===== src/Outbox/Enqueue/Tests.antt =====
-- Enqueueing at concrete inputs.
use vi_xauusd.Prelude.{ℕ, ◌≡◌, refl, true, false, none, some, List, [], ◌∷◌}
use vi_xauusd.Outbox.Row.{pending, is_outdated}
use vi_xauusd.Outbox.Passes.{superseded}
use vi_xauusd.Outbox.Enqueue.Data.{Payload, Notice, Board, Policy, World, Race}
use vi_xauusd.Outbox.Enqueue.Keys.{canonicalize, with_keys}
use vi_xauusd.Outbox.Enqueue.Insert.{}
use vi_xauusd.Outbox.Enqueue.Merge.{note, skip}
use vi_xauusd.Outbox.Enqueue.Ladder.{fresh_notice, persist_event, persist_decision_events}
use vi_xauusd.Outbox.Enqueue.Kept.{erase, delivery}
use vi_xauusd.Outbox.Enqueue.Deliveries.{committed, persist-Kept}
use vi_xauusd.Outbox.Enqueue.Once.{keyed, current_of, persist_event-due}
use vi_xauusd.Outbox.Enqueue.Between.{Between, handled, worked_on, published, happen_all}

abbrev wait_event : Payload
wait_event = record {
  event_id = "e1";
  event_type = "ENTRY_READY";
  symbol = "XAUUSD";
  decision_id = "d7";
  state_version = 7;
  event_version = 1;
  is_log_only = false;
  explicit_key = "";
  incident_id = "";
  semantic_key = "s";
  event_key = "";
  payload_hash = "";
  market_bias = "";
  is_reloaded = false;
  scenario_id = "s1";
  direction = "LONG";
  facts = record { fact_id = "e1"; fact_content = "" } ∷ [];
  notice = record {
    eligible = true;
    reason_code = "ENTRY_PERMISSION_CHANGED";
    priority = "ACTION";
  };
  reason = "";
  content = "";
}

abbrev open_policy : Policy
open_policy = record {
  coordinate = λ t ps. ps;
  eligibility = λ p. p.notice;
  has_errors = λ p. false;
  semantic_digest = λ p. p.scenario_id;
  key_digest = λ s t i k. k;
  fingerprint = λ p. p.event_id;
  merge = λ t fs. wait_event;
  regressed = λ o p. false;
  transition = λ o p. none;
  meaningful = λ o p. (true, "FIRST_NOTIFICATION");
}

abbrev world : World
world = record {
  policy = open_policy;
  market = "XAUUSD";
  now = 1000;
  dedup_cooldown = 300;
  aggregation_window = 20;
}

abbrev at_version : ℕ → Board
at_version v = record {
  standing = some (record {
    current = record { current_decision_id = "d7"; decision_version = v };
    bias = "LONG";
  });
  events = [];
  notices = [];
  audits = [];
}

abbrev nobody : Race
nobody = record { other_events = []; other_notices = [] }

-- The tables after the event.
abbrev after : Board
after = record (at_version 7) {
  events =
      record {
        row_event_id = "e1";
        row_symbol = "XAUUSD";
        row_payload = record (keyed world (at_version 7) wait_event) {
          reason = "FIRST_NOTIFICATION";
        };
      }
      ∷ [];
  notices = fresh_notice world (keyed world (at_version 7) wait_event) 0 ∷ [];
  audits =
      record {
        audit_event_id = "e1";
        audit_eligible = true;
        audit_reason = "ENTRY_PERMISSION_CHANGED";
        dedupe_key = "s1";
      }
      ∷ [];
}

created : Payload
created = record (keyed world (at_version 7) wait_event) { reason = "FIRST_NOTIFICATION" }

enqueues : persist_event world (at_version 7) wait_event nobody ≡ some (after, some created)
unfolding persist_event created
enqueues = refl

persist_event-due_example :
    (n : Notice) × (rest : List Notice) × (after.notices ≡ n ∷ rest)
    × (n.row.status ≡ pending)
    × (n.row.attempts ≡ 0)
    × (n.row.next_attempt_at ≡ some 1020)
    × (is_outdated (current_of (at_version 7).standing) n.row ≡ false)
    × ((keyed world (at_version 7) wait_event).notice.eligible ≡ true)
persist_event-due_example =
    persist_event-due world (at_version 7) after wait_event created nobody refl enqueues

again :
    persist_event world after wait_event nobody
    ≡ some (note created false "SKIP_DUPLICATE_EVENT" "s1" after, none)
unfolding persist_event created
again = refl

-- The delivery fails once, another decision comes and goes, and an hour passes.
abbrev meanwhile : List Between
meanwhile =
    worked_on "e1" (superseded 1100) [] (record { close_history = none; final_lifecycle = none })
    ∷ published none
    ∷ handled world (record wait_event { event_id = "" }) nobody
    ∷ published (at_version 7).standing
    ∷ []

abbrev later_world : World
later_world = record world { now = 4600 }

later_board : Board
later_board = happen_all meanwhile after

-- An old snapshot is refused.
stale_version :
    persist_event world (at_version 8) wait_event nobody
    ≡ skip wait_event "SKIP_STALE_STATE_VERSION" "s" (at_version 8)
unfolding persist_event
stale_version = refl

persist-Kept_example :
    delivery "e1"
      (committed after
        (persist_decision_events world after (λ p. nobody) (wait_event ∷ []))).notices
    ≡ some (erase (fresh_notice world (keyed world (at_version 7) wait_event) 0))
unfolding fresh_notice with_keys canonicalize
persist-Kept_example =
    persist-Kept world after (λ p. nobody) (wait_event ∷ []) "e1"
      (erase (fresh_notice world (keyed world (at_version 7) wait_event) 0)) refl
