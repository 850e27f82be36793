-- ===== src/Outbox/Enqueue/Deliveries.antt =====
-- Enqueueing never touches a delivery that is there.
use vi_xauusd.Prelude.{
  Bool-cases, length, filter, String, ◌≡◌, refl, inl, inr, false, Option, none, some, List, [], ◌∷◌,
  map,
}
use vi_xauusd.Outbox.Row.{}
use vi_xauusd.Outbox.Enqueue.Data.{
  Payload, Standing, EventRow, Notice, Board, World, Race, is_empty,
}
use vi_xauusd.Outbox.Enqueue.Keys.{
  canonicalize, with_keys, prepare_all, is_stale_payload, is_not_current,
}
use vi_xauusd.Outbox.Enqueue.History.{}
use vi_xauusd.Outbox.Enqueue.Insert.{insert_notice, commit_notices}
use vi_xauusd.Outbox.Enqueue.Merge.{
  Result, note, is_settled, matches, facts_of, all_known, find_event, merge_into, on_duplicate,
}
use vi_xauusd.Outbox.Enqueue.Ladder.{
  fresh_notice, enqueued, enqueue, by_message, by_notices, persist_event, Outcome, with_created,
  and_then, persist_all, persist_decision_events,
}
use vi_xauusd.Outbox.Enqueue.Cases.{by_message_cases}
use vi_xauusd.Outbox.Enqueue.Kept.{
  delivery, Kept, insert_notice-Kept, commit_notices-Kept, touch-Kept,
}

-- What a result keeps; an exception is rolled back.
abbrev IsAfter : List Notice → Option Standing → Result → Type 0
IsAfter ns s none = Unit
IsAfter ns s (some r) = Kept ns r.0.notices × (r.0.standing ≡ s)

abbrev pub After : Board → Result → Type 0
After b r = IsAfter b.notices b.standing r

enqueued-After :
    (b : Board) (p : Payload) (ns : List Notice) (o : Option (List Notice))
    → Kept b.notices ns
    → ((ms : List Notice) → o ≡ some ms → Kept ns ms)
    → After b (enqueued p (record b { notices = ns }) o)
unfolding enqueued
enqueued-After b p ns none k g = (k, refl)
enqueued-After b p ns (some ms) k g = (λ id n d. g ms refl id n (k id n d), refl)

enqueue-After : (race : Race) (w : World) (p : Payload) (b : Board) → After b (enqueue race w p b)
unfolding enqueue
enqueue-After race w p b =
    let ns = commit_notices race.other_notices b.notices in
    enqueued-After b p ns (insert_notice (fresh_notice w p (length ns)) ns)
      (commit_notices-Kept race.other_notices b.notices)
      (insert_notice-Kept (fresh_notice w p (length ns)) ns)

by_message-After :
    (race : Race) (w : World) (p : Payload) (b : Board) → After b (by_message race w p b)
by_message-After race w p b =
    by_message_cases IsAfter (λ c. (λ id n d. d, refl)) race w p
      (λ r c e. enqueue-After race w (record p { reason = r }) c) b

merge_into-After :
    (w : World) (p : Payload) (n : Notice) (b : Board) (o : Option EventRow)
    → After b (merge_into w p n b o)
unfolding merge_into
merge_into-After w p n b none = tt
merge_into-After w p n b (some e) = elim (Bool-cases (all_known (facts_of e.row_payload) p.facts)) [
  | inl k ↦ rw k (λ id m d. d, refl)
  | inr k ↦ rw k (touch-Kept w.now n.row.event_id b.notices, refl)
]

on_duplicate-After :
    (w : World) (p : Payload) (n : Notice) (b : Board) → After b (on_duplicate w p n b)
unfolding on_duplicate
on_duplicate-After w p n b = elim (Bool-cases (is_settled n.row.status)) [
  | inl e ↦ rw e (λ id m d. d, refl)
  | inr e ↦ rw e (merge_into-After w p n b (find_event n.row.event_id b.events))
]

by_notices-After :
    (race : Race) (w : World) (p : Payload) (b : Board) (ns : List Notice)
    → After b (by_notices race w p b ns)
unfolding by_notices
by_notices-After race w p b [] = by_message-After race w p b
by_notices-After race w p b (n ∷ []) =
    on_duplicate-After w p n (note p false "SKIP_DUPLICATE_EVENT" p.semantic_key b)
by_notices-After race w p b (n ∷ m ∷ ns) = tt

pub persist_event-After :
    (w : World) (b : Board) (p : Payload) (race : Race) → After b (persist_event w b p race)
unfolding persist_event
persist_event-After w b p race = elim (Bool-cases (is_empty p.event_id)) [
  | inl e ↦ rw e (λ id n d. d, refl)
  | inr e ↦ elim (Bool-cases (is_stale_payload b.standing p)) [
    | inl f ↦ rw (e, f) (λ id n d. d, refl)
    | inr f ↦
        let q = with_keys w.policy (canonicalize b.standing p) in
        elim (Bool-cases (is_not_current b.standing q)) [
          | inl g ↦ rw (e, f, g) (λ id n d. d, refl)
          | inr g ↦ rw (e, f, g) (by_notices-After race w q b (filter (matches q) b.notices))
        ]
  ]
]

-- The tables after the call: an exception is rolled back.
abbrev pub committed : Board → Outcome → Board
committed b none = b
committed b (some r) = r.0

with_created-Kept :
    (b c : Board) (created : Option Payload) (o : Outcome)
    → Kept b.notices c.notices
    → Kept c.notices (committed c o).notices
    → Kept b.notices (committed b (with_created created o)).notices
with_created-Kept b c created none k h id n d = d
with_created-Kept b c none (some r) k h id n d = h id n (k id n d)
with_created-Kept b c (some q) (some r) k h id n d = h id n (k id n d)

and_then-Kept :
    (b : Board) (r : Result) (k : Board → Outcome)
    → After b r
    → ((c : Board) → Kept c.notices (committed c (k c)).notices)
    → Kept b.notices (committed b (and_then r k)).notices
and_then-Kept b none k a h = λ id n d. d
and_then-Kept b (some (c, created)) k a h = with_created-Kept b c created (k c) a.0 (h c)

persist_all-Kept :
    (w : World) (ps : List (Payload × Race)) (b : Board)
    → Kept b.notices (committed b (persist_all w b ps)).notices
unfolding persist_all
persist_all-Kept w [] b = λ id n d. d
persist_all-Kept w ((p, race) ∷ ps) b =
    and_then-Kept b (persist_event w b p race) (λ c. persist_all w c ps)
      (persist_event-After w b p race) (persist_all-Kept w ps)

-- Whatever events arrive and whatever other workers enqueue meanwhile, a delivery that is in the
-- outbox stays there with its status, attempts, due time, receipt and keys: only the time of its last
-- update may change, so that nothing delivered or parked becomes due again.
pub persist-Kept :
    (w : World) (b : Board) (races : Payload → Race) (ps : List Payload) (id : String) (n : Notice)
    → delivery id b.notices ≡ some n
    → delivery id (committed b (persist_decision_events w b races ps)).notices ≡ some n
unfolding persist_decision_events
persist-Kept w b races ps id n d =
    persist_all-Kept w
      (map (λ p. (p, races p)) (prepare_all w.policy w.market (w.policy.coordinate w.market ps))) b
      id n d
