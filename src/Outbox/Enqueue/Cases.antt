-- ===== src/Outbox/Enqueue/Cases.antt =====
-- The steps between the duplicate checks and the insert, for any claim about their result: where they
-- create nothing, and where they enqueue.
use vi_xauusd.Prelude.{
  Bool-cases, any, String, ◌≡◌, inl, inr, true, false, not, ◌&&◌, Option, none, some, List,
}
use vi_xauusd.Outbox.Row.{}
use vi_xauusd.Outbox.Enqueue.Data.{
  Payload, Standing, EventRow, Notice, Board, World, Race, is_test_event,
}
use vi_xauusd.Outbox.Enqueue.History.{last_sent_market_decision}
use vi_xauusd.Outbox.Enqueue.Insert.{same_event, insert_event, commit_events}
use vi_xauusd.Outbox.Enqueue.Merge.{Result, note}
use vi_xauusd.Outbox.Enqueue.Ladder.{
  enqueue, recorded, record_event, reason_of, by_reason, by_history, is_same_message, by_message,
}

module _ (P : List Notice → Option Standing → Result → Type 0)
    (stays : (b : Board) → P b.notices b.standing (some (b, none))) (race : Race) (w : World)
    (p : Payload)
    (enqueues : (r : String) (b : Board)
      → p.notice.eligible ≡ true
      → P b.notices b.standing (enqueue race w (record p { reason = r }) b)) where
  recorded_cases :
      (r : String) (b : Board) (o : Option (List EventRow))
      → P b.notices b.standing (recorded race w (record p { reason = r }) b o)
  unfolding recorded
  recorded_cases r b none = stays (note p false "SKIP_DUPLICATE_DECISION_EVENT" p.event_key b)
  recorded_cases r b (some es) = elim (Bool-cases p.notice.eligible) [
    | inl e ↦ simp e (enqueues r (record b { events = es }) e)
    | inr e ↦ simp e (stays (record b { events = es }))
  ]

  record_event_cases :
      (r : String) (b : Board)
      → P b.notices b.standing (record_event race w (record p { reason = r }) b)
  unfolding record_event
  record_event_cases r b = elim (Bool-cases (any (same_event p.event_id) b.events)) [
    | inl e ↦ rw e (stays b)
    | inr e ↦
        let es = commit_events race.other_events b.events in
        rw e (
          recorded_cases r (record b { events = es })
            (insert_event
              (record {
                row_event_id = p.event_id;
                row_symbol = w.market;
                row_payload = record p { reason = r };
              })
              es))
  ]

  by_reason_cases :
      (b : Board) (o : Option String) → P b.notices b.standing (by_reason race w p b o)
  unfolding by_reason
  by_reason_cases b none =
      stays (note p false "SKIP_NO_MEANINGFUL_DECISION_CHANGE" p.semantic_key b)
  by_reason_cases b (some r) = record_event_cases r b

  by_history_cases :
      (b : Board) (o : Option Payload) → P b.notices b.standing (by_history race w p b o)
  unfolding by_history
  by_history_cases b o = elim (Bool-cases (w.policy.regressed o p)) [
    | inl e ↦ rw e (stays (note p false "STATE_REGRESSION_BLOCKED" p.semantic_key b))
    | inr e ↦ rw e (by_reason_cases b (reason_of w o p))
  ]

  pub by_message_cases : (b : Board) → P b.notices b.standing (by_message race w p b)
  unfolding by_message
  by_message_cases b = elim (Bool-cases (any (is_same_message w p) b.notices)) [
    | inl e ↦ rw e (stays (note p false "SKIP_DUPLICATE_PAYLOAD" p.event_key b))
    | inr e ↦
        let noted = note p p.notice.eligible p.notice.reason_code p.semantic_key b in
        elim (Bool-cases (not p.notice.eligible && not (is_test_event p))) [
          | inl f ↦ rw (e, f) (stays noted)
          | inr f ↦ rw (e, f) (by_history_cases noted (last_sent_market_decision w b p))
        ]
  ]
