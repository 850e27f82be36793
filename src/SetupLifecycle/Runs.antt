-- ===== src/SetupLifecycle/Runs.antt =====
-- Whole histories of a setup: evaluations and notifications in any order.
use vi_xauusd.Prelude.{
  String, ◌≡◌, refl, ◌⊎◌, inl, inr, Bool, true, false, ◌&&◌, ◌||◌, Option, none, some, List, [],
  ◌∷◌, arith,
}
use vi_xauusd.SetupLifecycle.{
  entry_ready, missed_entry, Lifecycle, Inputs, is_text, same_setup, evaluate_setup_lifecycle,
  mark_entry_notification_sent,
}
use vi_xauusd.SetupLifecycle.Milestones.{
  IsConsistent, evaluate_new-IsConsistent, evaluate-IsConsistent, mark-IsConsistent,
}
use mathlib.Core.Path.{subst}

pub data Event : Type 0 where
  evaluated : Inputs → Event
  notified : String → Event

unfoldable pub step : Option Lifecycle → Event → Option Lifecycle
step previous (evaluated i) = some (evaluate_setup_lifecycle previous i)
step none (notified sent_at) = none
step (some s) (notified sent_at) = some (mark_entry_notification_sent s sent_at)

unfoldable pub run : Option Lifecycle → List Event → Option Lifecycle
run previous [] = previous
run previous (e ∷ es) = run (step previous e) es

abbrev pub IsConsistentOption : Option Lifecycle → Type 0
IsConsistentOption none = Unit
IsConsistentOption (some s) = IsConsistent s

step-IsConsistent :
    (previous : Option Lifecycle) (e : Event)
    → IsConsistentOption previous
    → IsConsistentOption (step previous e)
unfolding step
step-IsConsistent none (evaluated i) h = evaluate_new-IsConsistent i
step-IsConsistent (some s) (evaluated i) h = (evaluate-IsConsistent s i h).0
step-IsConsistent none (notified sent_at) h = tt
step-IsConsistent (some s) (notified sent_at) h = mark-IsConsistent s sent_at h

run-IsConsistent :
    (previous : Option Lifecycle) (es : List Event)
    → IsConsistentOption previous
    → IsConsistentOption (run previous es)
unfolding run
run-IsConsistent previous [] h = h
run-IsConsistent previous (e ∷ es) h =
    run-IsConsistent (step previous e) es (step-IsConsistent previous e h)

abbrev pub is_entry_ready : Option Lifecycle → Bool
is_entry_ready none = false
is_entry_ready (some s) = elim (s.state) [ entry_ready ↦ true | _ ↦ false ]

-- Whether the entry of the setup that stands at the end was notified: with a time, while it was ready,
-- and after the last evaluation at which another setup, or none, stood before.
unfoldable pub entry_notified : Option Lifecycle → Bool → List Event → Bool
unfolding step
entry_notified previous so_far [] = so_far
entry_notified previous so_far (evaluated i ∷ es) =
    entry_notified (step previous (evaluated i)) (so_far && same_setup previous i) es
entry_notified previous so_far (notified sent_at ∷ es) =
    entry_notified (step previous (notified sent_at))
      (so_far || (is_entry_ready previous && is_text (some sent_at))) es

abbrev sent : Option Lifecycle → Bool
sent none = false
sent (some s) = is_text s.entry_notification_sent_at

-- What is marked as sent was notified.
abbrev IsBacked : Option Lifecycle → Bool → Type 0
IsBacked previous so_far = (sent previous ≡ false) ⊎ (so_far ≡ true)

evaluate-IsBacked :
    (previous : Option Lifecycle) (i : Inputs) (so_far : Bool)
    → IsBacked previous so_far
    → IsBacked (some (evaluate_setup_lifecycle previous i)) (so_far && same_setup previous i)
unfolding evaluate_setup_lifecycle
evaluate-IsBacked none i so_far h = ground arith
evaluate-IsBacked (some p) i so_far h = ground arith

mark-IsBacked :
    (s : Lifecycle) (sent_at : String) (so_far : Bool)
    → IsBacked (some s) so_far
    → IsBacked
        (some (mark_entry_notification_sent s sent_at))
        (so_far || (is_entry_ready (some s) && is_text (some sent_at)))
unfolding mark_entry_notification_sent
mark-IsBacked s sent_at so_far h = ground arith

run-IsBacked :
    (previous : Option Lifecycle) (so_far : Bool) (es : List Event)
    → IsBacked previous so_far
    → IsBacked (run previous es) (entry_notified previous so_far es)
unfolding run step entry_notified
run-IsBacked previous so_far [] h = h
run-IsBacked previous so_far (evaluated i ∷ es) h =
    run-IsBacked (some (evaluate_setup_lifecycle previous i)) (so_far && same_setup previous i) es
      (evaluate-IsBacked previous i so_far h)
run-IsBacked none so_far (notified sent_at ∷ es) h =
    run-IsBacked none (so_far || (is_entry_ready none && is_text (some sent_at))) es (inl refl)
run-IsBacked (some s) so_far (notified sent_at ∷ es) h =
    run-IsBacked (some (mark_entry_notification_sent s sent_at))
      (so_far || (is_entry_ready (some s) && is_text (some sent_at))) es
      (mark-IsBacked s sent_at so_far h)

-- A setup can only count as missed if its own entry was notified, with a time, while it was ready, and
-- since the setup began; a notification of an earlier setup does not count, whatever the evaluations
-- were.
pub missed-entry_notified :
    (es : List Event) (s : Lifecycle)
    → run none es ≡ some s
    → s.state ≡ missed_entry
    → entry_notified none false es ≡ true
missed-entry_notified es s e m =
    let consistent = subst IsConsistentOption e (run-IsConsistent none es tt) in
    let backed : IsBacked (some s) (entry_notified none false es) =
      subst (λ o. IsBacked o (entry_notified none false es)) e
        (run-IsBacked none false es (inl refl)) in
    elim backed [
      | inl unsent ↦ absurd (ground (arith, consistent.missed_notified m, unsent))
      | inr told ↦ told
    ]
