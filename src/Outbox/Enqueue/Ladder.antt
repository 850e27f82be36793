-- ===== src/Outbox/Enqueue/Ladder.antt =====
-- app/services/decision_outbox.py, `persist_decision_events`: the loop body, step by step, and the
-- loop. None stands for an exception of `scalar_one` or `scalar_one_or_none`.
use vi_xauusd.Prelude.{
  leb, if◌then◌else◌, or_option, length, filter, any, ℕ, ◌+◌, String, Bool, false, not, ◌&&◌,
  Option, none, some, List, [], ◌∷◌, map, str_eq,
}
use vi_xauusd.Outbox.Row.{pending, cancelled, same_status}
use vi_xauusd.Outbox.Enqueue.Data.{
  Payload, EventRow, Notice, Board, World, Race, is_empty, is_test_event, is_report, type_of,
}
use vi_xauusd.Outbox.Enqueue.Keys.{
  canonicalize, with_keys, prepare_all, is_stale_payload, is_not_current,
}
use vi_xauusd.Outbox.Enqueue.History.{last_sent_market_decision}
use vi_xauusd.Outbox.Enqueue.Merge.{Result, note, skip, matches, on_duplicate}
use vi_xauusd.Outbox.Enqueue.Insert.{
  same_event, insert_notice, insert_event, commit_notices, commit_events,
}

-- The row as it is enqueued.
unfoldable pub fresh_notice : World → Payload → ℕ → Notice
fresh_notice w p id = record {
  row = record {
    id = id;
    event_id = p.event_id;
    status = pending;
    attempts = 0;
    state_version = p.state_version;
    message_id = none;
    sent_at = none;
    next_attempt_at = some (w.now + w.aggregation_window);
    last_error = "";
    cancellation_reason = "";
    sender_worker_id = "";
    decision_id = p.decision_id;
    created_at = w.now;
    updated_at = w.now;
  };
  semantic_dedup_key = if is_empty p.semantic_key then none else some p.semantic_key;
  notice_key = p.event_key;
  notice_type = type_of p;
  notice_symbol = w.market;
  notice_hash = p.payload_hash;
}

-- The result of the insert into the outbox.
unfoldable pub enqueued : Payload → Board → Option (List Notice) → Result
enqueued p b none = skip p "SKIP_ATOMIC_DUPLICATE" p.event_key b
enqueued p b (some ns) = some (record b { notices = ns }, some p)

unfoldable pub enqueue : Race → World → Payload → Board → Result
unfolding fresh_notice insert_notice commit_notices enqueued
enqueue race w p b =
    let ns = commit_notices race.other_notices b.notices in
    enqueued p (record b { notices = ns }) (insert_notice (fresh_notice w p (length ns)) ns)

-- The result of the insert of the event.
unfoldable pub recorded : Race → World → Payload → Board → Option (List EventRow) → Result
unfolding enqueue
recorded race w p b none = skip p "SKIP_DUPLICATE_DECISION_EVENT" p.event_key b
recorded race w p b (some es) =
    if p.notice.eligible
    then enqueue race w p (record b { events = es })
    else some (record b { events = es }, none)

unfoldable pub record_event : Race → World → Payload → Board → Result
unfolding recorded insert_event commit_events
record_event race w p b =
    let es = commit_events race.other_events b.events in
    let e : EventRow = record {
      row_event_id = p.event_id;
      row_symbol = w.market;
      row_payload = p;
    } in
    if any (same_event p.event_id) b.events
    then some (b, none)
    else recorded race w p (record b { events = es }) (insert_event e es)

unfoldable pub reason_of : World → Option Payload → Payload → Option String
reason_of w previous p =
    let (is_meaningful, numeric) = w.policy.meaningful previous p in
    if is_report p
    then some "MANDATORY_CANDLE_CLOSE_ANALYSIS"
    else or_option (w.policy.transition previous p) (if is_meaningful then some numeric else none)

unfoldable pub by_reason : Race → World → Payload → Board → Option String → Result
unfolding record_event
by_reason race w p b none = skip p "SKIP_NO_MEANINGFUL_DECISION_CHANGE" p.semantic_key b
by_reason race w p b (some r) = record_event race w (record p { reason = r }) b

unfoldable pub by_history : Race → World → Payload → Board → Option Payload → Result
unfolding by_reason reason_of
by_history race w p b previous =
    if w.policy.regressed previous p
    then skip p "STATE_REGRESSION_BLOCKED" p.semantic_key b
    else by_reason race w p b (reason_of w previous p)

-- A row of the same text that was enqueued within the cooldown.
abbrev pub is_same_message : World → Payload → Notice → Bool
is_same_message w p n =
    str_eq n.notice_symbol w.market
    && str_eq n.notice_type (type_of p)
    && str_eq n.notice_hash p.payload_hash
    && not (same_status n.row.status cancelled)
    && leb w.now (n.row.created_at + w.dedup_cooldown)

unfoldable pub by_message : Race → World → Payload → Board → Result
unfolding by_history last_sent_market_decision
by_message race w p b =
    let d = p.notice in
    let noted = note p d.eligible d.reason_code p.semantic_key b in
    if any (is_same_message w p) b.notices
    then skip p "SKIP_DUPLICATE_PAYLOAD" p.event_key b
    else if not d.eligible && not (is_test_event p)
    then some (noted, none)
    else by_history race w p noted (last_sent_market_decision w b p)

-- The rows that the query finds; more than one is an exception.
unfoldable pub by_notices : Race → World → Payload → Board → List Notice → Result
unfolding by_message on_duplicate
by_notices race w p b [] = by_message race w p b
by_notices race w p b (n ∷ []) =
    on_duplicate w p n (note p false "SKIP_DUPLICATE_EVENT" p.semantic_key b)
by_notices race w p b (n ∷ m ∷ ns) = none

unfoldable pub persist_event : World → Board → Payload → Race → Result
unfolding by_notices with_keys canonicalize is_stale_payload is_not_current
persist_event w b p race =
    let q = with_keys w.policy (canonicalize b.standing p) in
    if is_empty p.event_id
    then some (b, none)
    else if is_stale_payload b.standing p
    then skip p "SKIP_STALE_STATE_VERSION" p.semantic_key b
    else if is_not_current b.standing q
    then skip q "SKIP_STALE_EVENT" q.semantic_key b
    else by_notices race w q b (filter (matches q) b.notices)

-- What the call returns: the tables and `created`.
abbrev pub Outcome : Type 0
Outcome = Option (Board × List Payload)

abbrev pub with_created : Option Payload → Outcome → Outcome
with_created created none = none
with_created none (some r) = some r
with_created (some q) (some (b, qs)) = some (b, q ∷ qs)

abbrev pub and_then : Result → (Board → Outcome) → Outcome
and_then none k = none
and_then (some (b, created)) k = with_created created (k b)

-- The second loop, one commit: an exception discards everything.
unfoldable pub persist_all : World → Board → List (Payload × Race) → Outcome
persist_all w b [] = some (b, [])
persist_all w b ((p, race) ∷ ps) = and_then (persist_event w b p race) (λ c. persist_all w c ps)

-- The whole call; `races` tells what other workers do during each event.
unfoldable pub persist_decision_events : World → Board → (Payload → Race) → List Payload → Outcome
unfolding persist_all
persist_decision_events w b races ps =
    persist_all w b
      (map (λ p. (p, races p)) (prepare_all w.policy w.market (w.policy.coordinate w.market ps)))
