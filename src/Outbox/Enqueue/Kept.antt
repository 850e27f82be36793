-- ===== src/Outbox/Enqueue/Kept.antt =====
-- Inserting and touching rows keeps the deliveries that are there.
use vi_xauusd.Prelude.{
  if◌then◌else◌, or_else, Bool-cases, any, ℕ, String, ◌≡◌, inl, inr, true, false, Option, none,
  some, List, [], ◌∷◌, arith, str_eq, eq_iff,
}
use vi_xauusd.Outbox.Row.{}
use vi_xauusd.Outbox.Enqueue.Data.{Notice}
use vi_xauusd.Outbox.Enqueue.Keys.{}
use vi_xauusd.Outbox.Enqueue.Insert.{clashes, insert_notice, commit_notices}
use vi_xauusd.Outbox.Enqueue.Merge.{touch}
use vi_xauusd.Outbox.Enqueue.Ladder.{}

-- A row but for the time of its last update.
abbrev pub erase : Notice → Notice
erase n = record n { row = record n.row { updated_at = 0 } }

-- The delivery of an event.
abbrev pub delivery : String → List Notice → Option Notice
delivery id [] = none
delivery id (n ∷ ns) =
    let rest = delivery id ns in if str_eq n.row.event_id id then some (erase n) else rest

abbrev pub Kept : List Notice → List Notice → Type 0
Kept ns ms = (id : String) (n : Notice) → delivery id ns ≡ some n → delivery id ms ≡ some n

any-clashes :
    (n m : Notice) (id : String) (ns : List Notice)
    → str_eq n.row.event_id id ≡ true
    → delivery id ns ≡ some m
    → any (clashes n) ns ≡ true
any-clashes n m id [] e h = absurd (ground arith)
any-clashes n m id (k ∷ ns) e h = ground (
  arith,
  any-clashes n m id ns e,
  eq_iff n.row.event_id id,
  eq_iff k.row.event_id id,
  eq_iff n.row.event_id k.row.event_id,
)

cons-Kept : (n : Notice) (ns : List Notice) → any (clashes n) ns ≡ false → Kept ns (n ∷ ns)
cons-Kept n ns free id m d = elim (Bool-cases (str_eq n.row.event_id id)) [
  | inl e ↦ absurd (ground (arith, any-clashes n m id ns e d))
  | inr e ↦ rw e d
]

pub insert_notice-Kept :
    (n : Notice) (ns ms : List Notice) → insert_notice n ns ≡ some ms → Kept ns ms
unfolding insert_notice
insert_notice-Kept n ns ms h id m d = elim (Bool-cases (any (clashes n) ns)) [
  | inl e ↦ absurd (ground (arith, rw e at h))
  | inr e ↦ let same : n ∷ ns ≡ ms = cc (rw e at h) in rw (← same) (cons-Kept n ns e id m d)
]

or_insert-Kept : (n : Notice) (ns : List Notice) → Kept ns (or_else (insert_notice n ns) ns)
unfolding insert_notice
or_insert-Kept n ns = elim (Bool-cases (any (clashes n) ns)) [
  | inl e ↦ rw e (λ id m d. d)
  | inr e ↦ rw e (cons-Kept n ns e)
]

pub commit_notices-Kept : (others ns : List Notice) → Kept ns (commit_notices others ns)
unfolding commit_notices
commit_notices-Kept [] ns id n d = d
commit_notices-Kept (o ∷ others) ns id n d =
    commit_notices-Kept others (or_else (insert_notice o ns) ns) id n (or_insert-Kept o ns id n d)

pub touch-Kept : (now : ℕ) (key : String) (ns : List Notice) → Kept ns (touch now key ns)
unfolding touch
touch-Kept now key [] id m d = d
touch-Kept now key (n ∷ ns) id m d = ground (arith, touch-Kept now key ns id m)
