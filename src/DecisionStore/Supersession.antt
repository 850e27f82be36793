-- ===== src/DecisionStore/Supersession.antt =====
-- What a new decision does to the notifications that wait.
use vi_xauusd.Prelude.{
  and_some, Bool-cases, String, ◌≡◌, refl, ◌⊎◌, inl, inr, true, false, not, ◌&&◌, ◌||◌, List, [],
  ◌∷◌, arith, str_eq,
}
use vi_xauusd.Outbox.Row.{cancelled, Row}
use vi_xauusd.DecisionStore.{
  Decision, Store, Context, is_changed, is_pending_state, is_stale_row, cancel_stale, payload_of,
  atomic_publish_canonical_snapshot,
}

-- A waiting notification of another decision, unless it is a test notification with a version.
abbrev pub IsStale : Context → String → Row → Type 0
IsStale x id r =
    (is_pending_state r.status ≡ true)
    × (str_eq r.decision_id "" ≡ false)
    × (str_eq r.decision_id id ≡ false)
    × (and_some (x.event_of r.event_id)
          (λ e. e.is_of_symbol && (not e.has_version || not e.is_test_event))
        ≡ true)

-- The rows before and after, one by one: those that were not stale are as before.
abbrev pub Pairwise : Context → String → List Row → List Row → Type 0
Pairwise x id [] [] = Unit
Pairwise x id [] (r ∷ rs) = ⊥
Pairwise x id (r ∷ rs) [] = ⊥
Pairwise x id (r ∷ rs) (t ∷ ts) =
    ((IsStale x id r × (t.status ≡ cancelled) × (t.cancellation_reason ≡ "STALE_STATE_VERSION"))
      ⊎ (¬ IsStale x id r × (t ≡ r)))
    × Pairwise x id rs ts

is_stale_row-IsStale :
    (x : Context) (id : String) (r : Row) → is_stale_row x id r ≡ true → IsStale x id r
unfolding is_stale_row
is_stale_row-IsStale x id r h = ground arith

is_stale_row-not_IsStale :
    (x : Context) (id : String) (r : Row) → is_stale_row x id r ≡ false → ¬ IsStale x id r
unfolding is_stale_row
is_stale_row-not_IsStale x id r h st = ground arith

cancel_stale-Pairwise :
    (x : Context) (id : String) (rows : List Row) → Pairwise x id rows (cancel_stale x id rows)
unfolding cancel_stale
cancel_stale-Pairwise x id [] = tt
cancel_stale-Pairwise x id (r ∷ rows) = elim (Bool-cases (is_stale_row x id r)) [
  | inl e ↦ rw e (inl (is_stale_row-IsStale x id r e, refl, refl), cancel_stale-Pairwise x id rows)
  | inr e ↦ rw e (inr (is_stale_row-not_IsStale x id r e, refl), cancel_stale-Pairwise x id rows)
]

-- When a decision with a new signature is published, exactly the waiting notifications of other
-- decisions of the symbol are cancelled as stale (test notifications that carry a version excepted),
-- and every other notification, delivered ones among them, is left as it is.
pub publish-cancels :
    (x : Context) (s : Store) (d : Decision)
    → (atomic_publish_canonical_snapshot x s d).1 ≡ true
    → is_changed s.current d ≡ true
    → Pairwise x
        (atomic_publish_canonical_snapshot x s d).0.decision_id
        s.notifications
        (atomic_publish_canonical_snapshot x s d).2.notifications
unfolding atomic_publish_canonical_snapshot
publish-cancels x s d ok changed = elim (Bool-cases (payload_of s.current d)) [
  | inl e ↦ absurd (ground arith)
  | inr e ↦ rw (e, changed) (cancel_stale-Pairwise x _ s.notifications)
]
