-- ===== src/Outbox/Enqueue/Once.antt =====
-- What a new delivery looks like.
use vi_xauusd.Prelude.{
  Bool-cases, length, filter, any, ℕ, ◌+◌, String, ◌≡◌, refl, inl, inr, true, false, Option, none,
  some, List, [], ◌∷◌, arith,
}
use vi_xauusd.Outbox.Row.{pending, Current, is_outdated}
use vi_xauusd.Outbox.Enqueue.Data.{Payload, Standing, Notice, Board, World, Race, is_empty}
use vi_xauusd.Outbox.Enqueue.Keys.{
  canonicalize, with_semantic_key, with_keys, is_stale_payload, is_not_current,
}
use vi_xauusd.Outbox.Enqueue.History.{}
use vi_xauusd.Outbox.Enqueue.Insert.{clashes, insert_notice, commit_notices}
use vi_xauusd.Outbox.Enqueue.Merge.{Result, matches}
use vi_xauusd.Outbox.Enqueue.Ladder.{
  fresh_notice, enqueued, enqueue, by_message, by_notices, persist_event,
}
use vi_xauusd.Outbox.Enqueue.Cases.{by_message_cases}

-- What `created` holds was put in front of the outbox.
abbrev IsNew : World → Payload → List Notice → Option Standing → Result → Type 0
IsNew w p ns s none = Unit
IsNew w p ns s (some (c, none)) = Unit
IsNew w p ns s (some (c, some q)) =
    (rest : List Notice) × (c.notices ≡ fresh_notice w p (length rest) ∷ rest)
    × (c.standing ≡ s)
    × (p.notice.eligible ≡ true)

enqueued-IsNew :
    (w : World) (p : Payload) (r : String) (b : Board) (ns : List Notice)
    → p.notice.eligible ≡ true
    → IsNew w p b.notices b.standing (
        enqueued
          (record p { reason = r })
          (record b { notices = ns })
          (insert_notice (fresh_notice w p (length ns)) ns))
unfolding enqueued insert_notice
enqueued-IsNew w p r b ns e = elim (Bool-cases (any (clashes (fresh_notice w p (length ns))) ns)) [
  | inl c ↦ rw c tt
  | inr c ↦ rw c (ns, refl, refl, e)
]

by_message-IsNew :
    (race : Race) (w : World) (p : Payload) (b : Board)
    → IsNew w p b.notices b.standing (by_message race w p b)
unfolding enqueue
by_message-IsNew race w p b =
    by_message_cases (IsNew w p) (λ c. tt) race w p
      (λ r c e. enqueued-IsNew w p r c (commit_notices race.other_notices c.notices) e) b

-- The payload as the tables see it.
abbrev pub keyed : World → Board → Payload → Payload
keyed w b p = with_keys w.policy (canonicalize b.standing p)

abbrev pub HasNew : World → Payload → Board → Board → Type 0
HasNew w p b c =
    (rest : List Notice) × (c.notices ≡ fresh_notice w p (length rest) ∷ rest)
    × (c.standing ≡ b.standing)
    × (p.notice.eligible ≡ true)

created_new :
    (w : World) (p q : Payload) (b c : Board) (r : Result)
    → IsNew w p b.notices b.standing r
    → r ≡ some (c, some q)
    → HasNew w p b c
created_new w p q b c none i e = absurd (ground arith)
created_new w p q b c (some (d, none)) i e = absurd (ground arith)
created_new w p q b c (some (d, some x)) i e = let same : d ≡ c = cc e in rw same at i

-- Past the checks of the decision, or nothing was created.
Created : World → Board → Payload → Race → Board → Payload → Type 0
Created w b p race c q =
    (by_notices race w (keyed w b p) b (filter (matches (keyed w b p)) b.notices)
      ≡ some (c, some q))
    × (is_not_current b.standing (keyed w b p) ≡ false)
    × (is_stale_payload b.standing p ≡ false)

persist_event-Created :
    (w : World) (b c : Board) (p q : Payload) (race : Race)
    → persist_event w b p race ≡ some (c, some q)
    → Created w b p race c q
unfolding persist_event Created
persist_event-Created w b c p q race e = elim (Bool-cases (is_empty p.event_id)) [
  | inl f ↦ absurd (ground (arith, rw f at e))
  | inr f ↦ elim (Bool-cases (is_stale_payload b.standing p)) [
    | inl g ↦ absurd (ground (arith, rw (f, g) at e))
    | inr g ↦ elim (Bool-cases (is_not_current b.standing (keyed w b p))) [
      | inl h ↦ absurd (ground (arith, rw (f, g, h) at e))
      | inr h ↦ (rw (f, g, h) at e, h, g)
    ]
  ]
]

pub persist_event-new :
    (w : World) (b c : Board) (p q : Payload) (race : Race)
    → filter (matches (keyed w b p)) b.notices ≡ []
    → persist_event w b p race ≡ some (c, some q)
    → HasNew w (keyed w b p) b c
unfolding by_notices Created
persist_event-new w b c p q race free e =
    created_new w (keyed w b p) q b c (by_message race w (keyed w b p) b)
      (by_message-IsNew race w (keyed w b p) b)
      (rw free at (persist_event-Created w b c p q race e).0)

abbrev pub current_of : Option Standing → Option Current
current_of none = none
current_of (some s) = some s.current

keyed_current :
    (w : World) (s : Option Standing) (p : Payload) (id : ℕ)
    → is_outdated (current_of s) (fresh_notice w (with_keys w.policy (canonicalize s p)) id).row
      ≡ false
unfolding fresh_notice with_keys with_semantic_key canonicalize
keyed_current w none p id = refl
keyed_current w (some s) p id = ground arith

-- What an event without a known notification creates is one eligible, untried delivery in front of
-- the outbox, due after the aggregation window, of the version that is current: the check before the
-- delivery does not find it outdated.
pub persist_event-due :
    (w : World) (b c : Board) (p q : Payload) (race : Race)
    → filter (matches (keyed w b p)) b.notices ≡ []
    → persist_event w b p race ≡ some (c, some q)
    → (n : Notice) × (rest : List Notice) × (c.notices ≡ n ∷ rest)
      × (n.row.status ≡ pending)
      × (n.row.attempts ≡ 0)
      × (n.row.next_attempt_at ≡ some (w.now + w.aggregation_window))
      × (is_outdated (current_of b.standing) n.row ≡ false)
      × ((keyed w b p).notice.eligible ≡ true)
unfolding fresh_notice
persist_event-due w b c p q race free e =
    let (rest, at_front, _, eligible) = persist_event-new w b c p q race free e in
    (
      fresh_notice w (keyed w b p) (length rest),
      rest,
      at_front,
      refl,
      refl,
      refl,
      keyed_current w b.standing p (length rest),
      eligible,
    )
