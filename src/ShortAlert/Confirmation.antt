-- ===== src/ShortAlert/Confirmation.antt =====
-- What makes the bearish alert active, and what makes an entry ready.
use vi_xauusd.Prelude.{
  leb, or_else, and_some, Bool-cases, ℕ, ◌≡◌, inl, inr, true, false, not, ◌&&◌, ◌||◌, Option, none,
  some, arith, str_eq,
}
use vi_xauusd.ShortAlert.State.{
  BearishEvent, no_event, entry_ready, AlertState, Level, Snapshot, Blocked, AlertEvaluation,
  is_empty,
}
use vi_xauusd.ShortAlert.Zones.{support_level, validate_alert_zones}
use vi_xauusd.ShortAlert.Evaluate.{
  is_active, is_failed, is_confirmed_state, reclaimed, short_ready, Choice, chosen, reset, choose,
  is_same_event, next_state, note_close, emit, migrated, by_level, with_support, when_unblocked,
  evaluate_short_alert,
}

-- An active status was active before, or a candle has closed below the support.
abbrev IsFounded : AlertState → Snapshot → AlertEvaluation → Type 0
IsFounded p n e =
    is_active e.state.status ≡ true
    → (is_active p.status || (is_confirmed_state n.support_state && not (is_empty n.closed))) ≡ true

emit-IsFounded :
    (p : AlertState) (n : Snapshot) (level buffer : ℕ)
    → IsFounded p n (emit p n buffer (choose p n level buffer))
unfolding emit choose next_state note_close
emit-IsFounded p n level buffer h = ground arith

-- The plan that an entry needs.
abbrev IsComplete : AlertState → Snapshot → AlertEvaluation → Type 0
IsComplete p n e =
    is_same_event e.event_type entry_ready ≡ true
    → (short_ready p n ≡ true) × ((is_failed n.support_state || reclaimed p n) ≡ false)

impossible : false ≡ true → ⊥
impossible h = ground arith

abbrev event_of : Choice → BearishEvent
event_of (chosen event status level) = event
event_of reset = no_event

emit-event_of :
    (p : AlertState) (n : Snapshot) (buffer : ℕ) (c : Choice)
    → is_same_event (emit p n buffer c).event_type entry_ready ≡ true
    → is_same_event (event_of c) entry_ready ≡ true
unfolding emit
emit-event_of p n buffer reset h = absurd (ground arith)
emit-event_of p n buffer (chosen event status level) h =
    elim (Bool-cases (
      is_same_event event no_event
      || (is_same_event p.last_event event && str_eq p.last_closed_candle n.closed))) [
        | inl e ↦ absurd (impossible (rw e at h))
        | inr e ↦ rw e at h
      ]

choose-entry_ready :
    (p : AlertState) (n : Snapshot) (level buffer : ℕ)
    → is_same_event (event_of (choose p n level buffer)) entry_ready ≡ true
    → (short_ready p n ≡ true) × ((is_failed n.support_state || reclaimed p n) ≡ false)
unfolding choose
choose-entry_ready p n level buffer h =
    elim (Bool-cases (is_failed n.support_state || reclaimed p n)) [
      | inl e ↦ absurd (impossible (rw e at h))
      | inr e ↦ elim (Bool-cases (short_ready p n)) [
        | inl r ↦ (r, e)
        | inr r ↦ absurd (ground (arith, rw (e, r) at h))
      ]
    ]

by_level-IsFounded : (p : AlertState) (n : Snapshot) (o : Option ℕ) → IsFounded p n (by_level p n o)
unfolding by_level
by_level-IsFounded p n none h = ground arith
by_level-IsFounded p n (some level) h = emit-IsFounded p n level 0 h

with_support-IsFounded :
    (p : AlertState) (n : Snapshot) (l : Option Level) → IsFounded p n (with_support p n l)
unfolding with_support
with_support-IsFounded p n (some l) h =
    emit-IsFounded p n (or_else l.price 0) (or_else l.buffer 0) h
with_support-IsFounded p n none h = by_level-IsFounded p n p.level h

when_unblocked-IsFounded :
    (p : AlertState) (n : Snapshot) (o : Option Blocked) → IsFounded p n (when_unblocked p n o)
unfolding when_unblocked
when_unblocked-IsFounded p n (some reason) h = ground arith
when_unblocked-IsFounded p n none h = with_support-IsFounded p n (support_level n.levels) h

emit-IsComplete :
    (p : AlertState) (n : Snapshot) (level buffer : ℕ)
    → IsComplete p n (emit p n buffer (choose p n level buffer))
emit-IsComplete p n level buffer h =
    choose-entry_ready p n level buffer (emit-event_of p n buffer (choose p n level buffer) h)

by_level-IsComplete :
    (p : AlertState) (n : Snapshot) (o : Option ℕ) → IsComplete p n (by_level p n o)
unfolding by_level
by_level-IsComplete p n none h = absurd (ground arith)
by_level-IsComplete p n (some level) h = emit-IsComplete p n level 0 h

with_support-IsComplete :
    (p : AlertState) (n : Snapshot) (l : Option Level) → IsComplete p n (with_support p n l)
unfolding with_support
with_support-IsComplete p n (some l) h =
    emit-IsComplete p n (or_else l.price 0) (or_else l.buffer 0) h
with_support-IsComplete p n none h = by_level-IsComplete p n p.level h

when_unblocked-IsComplete :
    (p : AlertState) (n : Snapshot) (o : Option Blocked) → IsComplete p n (when_unblocked p n o)
unfolding when_unblocked
when_unblocked-IsComplete p n (some reason) h = absurd (ground arith)
when_unblocked-IsComplete p n none h = with_support-IsComplete p n (support_level n.levels) h

-- The status becomes active only on a closed candle whose support state is confirmed: an intrabar
-- breach alone never activates the bearish view.
pub evaluate-active :
    (n : Snapshot) (p : AlertState)
    → is_active (evaluate_short_alert n (some p)).state.status ≡ true
    → (is_active (migrated p).status
        || (is_confirmed_state n.support_state && not (is_empty n.closed)))
      ≡ true
unfolding evaluate_short_alert
evaluate-active n p h = when_unblocked-IsFounded (migrated p) n (validate_alert_zones n) h

-- An entry is announced only while the bearish view is active, with a complete plan for a short that
-- is ready and pays at least 1.5 times its risk, and never while the breakdown has failed.
pub evaluate-entry_ready_event :
    (n : Snapshot) (p : AlertState)
    → is_same_event (evaluate_short_alert n (some p)).event_type entry_ready ≡ true
    → (is_active (migrated p).status ≡ true)
      × (and_some n.entry_plan
            (λ x. x.is_short && x.is_ready && x.has_all_prices && leb 150 x.risk_reward)
          ≡ true)
      × (is_failed n.support_state ≡ false)
unfolding evaluate_short_alert short_ready
evaluate-entry_ready_event n p h =
    let (r, f) = when_unblocked-IsComplete (migrated p) n (validate_alert_zones n) h in
    ground (arith, r, f)
