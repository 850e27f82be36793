-- ===== src/Outbox/Enqueue/Insert.antt =====
-- app/db/models.py: the unique columns of `DecisionEvent` and `TelegramNotification`. A violation is
-- an IntegrityError, here none; other workers' rows go the same way.
use vi_xauusd.Prelude.{
  if◌then◌else◌, or_else, and_some, any, String, Bool, ◌||◌, Option, none, some, List, [], ◌∷◌,
  str_eq,
}
use vi_xauusd.Outbox.Enqueue.Data.{EventRow, Notice}

abbrev pub same_text : Option String → Option String → Bool
same_text a b = and_some a (λ s. and_some b (λ t. str_eq s t))

-- The two rows could not both be in the table.
abbrev pub clashes : Notice → Notice → Bool
clashes n m =
    str_eq n.row.event_id m.row.event_id
    || str_eq n.notice_key m.notice_key
    || same_text n.semantic_dedup_key m.semantic_dedup_key

abbrev pub same_event : String → EventRow → Bool
same_event id e = str_eq e.row_event_id id

unfoldable pub insert_notice : Notice → List Notice → Option (List Notice)
insert_notice n ns = if any (clashes n) ns then none else some (n ∷ ns)

unfoldable pub insert_event : EventRow → List EventRow → Option (List EventRow)
insert_event e es = if any (same_event e.row_event_id) es then none else some (e ∷ es)

unfoldable pub commit_notices : List Notice → List Notice → List Notice
unfolding insert_notice
commit_notices [] ns = ns
commit_notices (n ∷ others) ns = commit_notices others (or_else (insert_notice n ns) ns)

unfoldable pub commit_events : List EventRow → List EventRow → List EventRow
unfolding insert_event
commit_events [] es = es
commit_events (e ∷ others) es = commit_events others (or_else (insert_event e es) es)
