-- ===== src/Outbox/Enqueue/Between.antt =====
-- What may happen to the tables between two calls of `persist_decision_events`, and that none of it
-- takes the key of a delivery away.
use vi_xauusd.Prelude.{
  if◌then◌else◌, Bool-cases, filter, String, ◌≡◌, refl, ◌⊎◌, inl, inr, Bool, true, false, Option,
  none, some, List, [], ◌∷◌, arith, str_eq, eq_refl,
}
use vi_xauusd.Outbox.Row.{Row}
use vi_xauusd.Outbox.Send.{Monitors}
use vi_xauusd.Outbox.Passes.{OpenDelivery, Step, step}
use vi_xauusd.Outbox.Passes.Identity.{step-event_id}
use vi_xauusd.Outbox.Enqueue.Data.{Payload, Standing, Notice, Board, World, Race}
use vi_xauusd.Outbox.Enqueue.Insert.{commit_notices}
use vi_xauusd.Outbox.Enqueue.Merge.{Result, matches}
use vi_xauusd.Outbox.Enqueue.Ladder.{persist_event}
use vi_xauusd.Outbox.Enqueue.Kept.{erase, delivery, Kept, commit_notices-Kept}
use vi_xauusd.Outbox.Enqueue.Deliveries.{After, persist_event-After}

-- Other workers insert rows or handle an event of their own, at any time and under any policy; the
-- delivery of an event takes a step of its life, whatever else is open; a decision is published.
pub data Between : Type 0 where
  inserted : List Notice → Between
  handled : World → Payload → Race → Between
  worked_on : String → Step → List OpenDelivery → Monitors → Between
  published : Option Standing → Between

-- The tables after a call; an exception is rolled back.
abbrev pub after_call : Board → Result → Board
after_call b none = b
after_call b (some r) = r.0

abbrev row_after : Step → List OpenDelivery → Monitors → Row → Row
row_after e ds s r = (step e (record { row = r; monitors = s; deliveries = ds; accepted = 0 })).row

unfoldable pub work_on : String → (Row → Row) → List Notice → List Notice
work_on id f [] = []
work_on id f (n ∷ ns) =
    (if str_eq n.row.event_id id then record n { row = f n.row } else n) ∷ work_on id f ns

unfoldable pub happen : Between → Board → Board
unfolding work_on
happen (inserted ns) b = record b { notices = commit_notices ns b.notices }
happen (handled w p race) b = after_call b (persist_event w b p race)
happen (worked_on id e ds s) b = record b { notices = work_on id (row_after e ds s) b.notices }
happen (published o) b = record b { standing = o }

unfoldable pub happen_all : List Between → Board → Board
happen_all [] b = b
happen_all (x ∷ xs) b = happen_all xs (happen x b)

-- The delivery of the event is there, under the key.
abbrev pub Holds : String → String → List Notice → Type 0
Holds id key ns = (n : Notice) × (delivery id ns ≡ some n) × (n.notice_key ≡ key)

Kept-Holds :
    (id key : String) (ns ms : List Notice) → Kept ns ms → Holds id key ns → Holds id key ms
Kept-Holds id key ns ms k (n, d, e) = (n, k id n d, e)

here-Holds :
    (id key : String) (n : Notice) (ns : List Notice)
    → str_eq n.row.event_id id ≡ true
    → n.notice_key ≡ key
    → Holds id key (n ∷ ns)
here-Holds id key n ns here k = (erase n, rw here refl, k)

there-Holds :
    (id key : String) (n : Notice) (ns : List Notice)
    → str_eq n.row.event_id id ≡ false
    → Holds id key ns
    → Holds id key (n ∷ ns)
there-Holds id key n ns there (m, d, e) = (m, rw there d, e)

worked-Holds :
    (id key : String) (b : Bool) (f : Row → Row) (n : Notice) (ns : List Notice)
    → (f n.row).event_id ≡ n.row.event_id
    → ((str_eq n.row.event_id id ≡ true) × (n.notice_key ≡ key))
      ⊎ ((str_eq n.row.event_id id ≡ false) × Holds id key ns)
    → Holds id key ((if b then record n { row = f n.row } else n) ∷ ns)
worked-Holds id key true f n ns same (inl (here, k)) =
    here-Holds id key (record n { row = f n.row }) ns (rw same here) k
worked-Holds id key true f n ns same (inr (there, h)) =
    there-Holds id key (record n { row = f n.row }) ns (rw same there) h
worked-Holds id key false f n ns same (inl (here, k)) = here-Holds id key n ns here k
worked-Holds id key false f n ns same (inr (there, h)) = there-Holds id key n ns there h

work_on-Holds :
    (id key wanted : String) (f : Row → Row) (ns : List Notice)
    → ((r : Row) → (f r).event_id ≡ r.event_id)
    → Holds id key ns
    → Holds id key (work_on wanted f ns)
unfolding work_on
work_on-Holds id key wanted f [] same (m, d, e) = (m, d, e)
work_on-Holds id key wanted f (n ∷ ns) same (m, d, e) =
    worked-Holds id key (str_eq n.row.event_id wanted) f n (work_on wanted f ns) (same n.row)
      (elim (Bool-cases (str_eq n.row.event_id id)) [
        | inl here ↦ inl (here, ground (arith, here, d, e))
        | inr there ↦ inr (there, work_on-Holds id key wanted f ns same (m, rw there at d, e))
      ])

after_call-Holds :
    (id key : String) (b : Board) (r : Result)
    → After b r
    → Holds id key b.notices
    → Holds id key (after_call b r).notices
after_call-Holds id key b none a h = h
after_call-Holds id key b (some (c, created)) a h = Kept-Holds id key b.notices c.notices a.0 h

happen-Holds :
    (id key : String) (x : Between) (b : Board)
    → Holds id key b.notices
    → Holds id key (happen x b).notices
unfolding happen
happen-Holds id key (inserted ns) b h =
    Kept-Holds id key b.notices (commit_notices ns b.notices) (commit_notices-Kept ns b.notices) h
happen-Holds id key (handled w p race) b h =
    after_call-Holds id key b (persist_event w b p race) (persist_event-After w b p race) h
happen-Holds id key (worked_on wanted e ds s) b h =
    work_on-Holds id key wanted (row_after e ds s) b.notices
      (λ r. step-event_id e (record { row = r; monitors = s; deliveries = ds; accepted = 0 })) h
happen-Holds id key (published o) b h = h

pub happen_all-Holds :
    (id key : String) (xs : List Between) (b : Board)
    → Holds id key b.notices
    → Holds id key (happen_all xs b).notices
unfolding happen_all
happen_all-Holds id key [] b h = h
happen_all-Holds id key (x ∷ xs) b h =
    happen_all-Holds id key xs (happen x b) (happen-Holds id key x b h)

-- A delivery under the key is found by every event with that key.
pub Holds-matched :
    (id : String) (p : Payload) (ns : List Notice)
    → Holds id p.event_key ns
    → (n : Notice) × (ms : List Notice) × (filter (matches p) ns ≡ n ∷ ms)
Holds-matched id p [] (m, d, e) = absurd (ground (arith, d))
Holds-matched id p (n ∷ ns) (m, d, e) = elim (Bool-cases (matches p n)) [
  | inl hit ↦ (n, filter (matches p) ns, rw hit refl)
  | inr miss ↦ elim (Bool-cases (str_eq n.row.event_id id)) [
    | inl here ↦
        let k : n.notice_key ≡ p.event_key = ground (arith, here, d, e) in
        absurd (ground (arith, rw k at miss, eq_refl p.event_key))
    | inr there ↦ let (k, ks, f) = Holds-matched id p ns (m, rw there at d, e) in (k, ks, rw miss f)
  ]
]
