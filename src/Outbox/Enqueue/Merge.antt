-- ===== src/Outbox/Enqueue/Merge.antt =====
-- app/services/decision_outbox.py, `persist_decision_events`: what an event of a known notification
-- does. None stands for an exception of `scalar_one`.
use vi_xauusd.Prelude.{
  if◌then◌else◌, any, ℕ, String, Bool, true, false, not, ◌&&◌, ◌||◌, Option, none, some, List, [],
  ◌∷◌, ◌++◌, str_eq,
}
use vi_xauusd.Outbox.Row.{Status, sent, confirmed, delivery_unknown}
use vi_xauusd.Outbox.Enqueue.Data.{Fact, Payload, EventRow, Notice, Board, World, is_empty}
use vi_xauusd.Outbox.Enqueue.Insert.{same_text, same_event}

-- The tables, and the payload that `created` takes, if any.
abbrev pub Result : Type 0
Result = Option (Board × Option Payload)

abbrev pub note : Payload → Bool → String → String → Board → Board
note p eligible reason key b = record b {
  audits =
      record {
        audit_event_id = p.event_id;
        audit_eligible = eligible;
        audit_reason = reason;
        dedupe_key = key;
      }
      ∷ b.audits;
}

abbrev pub skip : Payload → String → String → Board → Result
skip p reason key b = some (note p false reason key b, none)

abbrev pub is_settled : Status → Bool
is_settled sent = true
is_settled confirmed = true
is_settled delivery_unknown = true
is_settled _ = false

abbrev pub matches : Payload → Notice → Bool
matches p n =
    str_eq n.notice_key p.event_key
    || (not (is_empty p.semantic_key) && same_text n.semantic_dedup_key (some p.semantic_key))

abbrev pub facts_of : Payload → List Fact
facts_of p = elim (p.facts) [
  | [] ↦ record { fact_id = p.event_id; fact_content = p.content } ∷ []
  | f ∷ fs ↦ f ∷ fs
]

abbrev pub has_id : List Fact → Fact → Bool
has_id old f = any (λ g. str_eq g.fact_id f.fact_id) old

abbrev pub all_known : List Fact → List Fact → Bool
all_known old [] = false
all_known old (f ∷ fs) = not (any (λ g. not (has_id old g)) (f ∷ fs))

abbrev pub find_event : String → List EventRow → Option EventRow
find_event id [] = none
find_event id (e ∷ es) = let rest = find_event id es in if same_event id e then some e else rest

unfoldable pub put_payload : String → Payload → List EventRow → List EventRow
put_payload id p [] = []
put_payload id p (e ∷ es) =
    (if same_event id e then record e { row_payload = p } else e) ∷ put_payload id p es

-- `existing_notice.updated_at = now`: nothing else of the delivery changes.
unfoldable pub touch : ℕ → String → List Notice → List Notice
touch now id [] = []
touch now id (n ∷ ns) =
    (if str_eq n.row.event_id id then record n { row = record n.row { updated_at = now } } else n)
    ∷ touch now id ns

unfoldable pub merge_into : World → Payload → Notice → Board → Option EventRow → Result
unfolding put_payload touch
merge_into w p n b none = none
merge_into w p n b (some e) =
    let old = facts_of e.row_payload in
    let merged = record (w.policy.merge w.market (old ++ p.facts)) { event_id = e.row_event_id } in
    if all_known old p.facts
    then some (b, none)
    else some (
      record b {
        events = put_payload e.row_event_id merged b.events;
        notices = touch w.now n.row.event_id b.notices;
      },
      some merged,
    )

unfoldable pub on_duplicate : World → Payload → Notice → Board → Result
unfolding merge_into
on_duplicate w p n b =
    if is_settled n.row.status
    then some (b, none)
    else merge_into w p n b (find_event n.row.event_id b.events)
