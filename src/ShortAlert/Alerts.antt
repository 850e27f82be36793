-- ===== src/ShortAlert/Alerts.antt =====
-- What the bearish alert announces while it looks at one closed candle again and again.
use vi_xauusd.Prelude.{
  if◌then◌else◌, or_else, Bool-cases, All, ℕ, String, ◌≡◌, refl, sym, ap, ◌∙◌, ◌⊎◌, inl, inr, true,
  false, Option, none, some, List, [], ◌∷◌, arith, eq_refl,
}
use vi_xauusd.ShortAlert.State.{
  AlertStatus, BearishEvent, no_event, AlertState, Level, Snapshot, Blocked, no_support_level,
  AlertEvaluation,
}
use vi_xauusd.ShortAlert.Zones.{support_level, validate_alert_zones}
use vi_xauusd.ShortAlert.Evaluate.{
  is_kept, Choice, chosen, reset, choose, number, is_same_event, quiet, emit, migrated, by_level,
  with_support, when_unblocked, evaluate_short_alert,
}
use mathlib.Core.Path.{subst}

-- Every evaluation is quiet with a reason, or emits what was chosen.
module _ (P : AlertEvaluation → Type 0) (p : AlertState) (n : Snapshot)
    (silent : (b : Blocked) → P (quiet p (some b)))
    (emits : (buffer level : ℕ) → P (emit p n buffer (choose p n level buffer))) where
  by_level_cases : (o : Option ℕ) → P (by_level p n o)
  unfolding by_level
  by_level_cases none = silent no_support_level
  by_level_cases (some level) = emits 0 level

  with_support_cases : (l : Option Level) → P (with_support p n l)
  unfolding with_support
  with_support_cases (some l) = emits (or_else l.buffer 0) (or_else l.price 0)
  with_support_cases none = by_level_cases p.level

  when_unblocked_cases : (o : Option Blocked) → P (when_unblocked p n o)
  unfolding when_unblocked
  when_unblocked_cases (some reason) = silent reason
  when_unblocked_cases none = with_support_cases (support_level n.levels)

-- What is announced leaves a status that a quiet look keeps.
choose-kept :
    (p : AlertState) (n : Snapshot) (level buffer : ℕ) (event : BearishEvent) (status : AlertStatus)
    (l : ℕ)
    → choose p n level buffer ≡ chosen event status l
    → is_same_event event no_event ≡ false
    → is_kept status ≡ true
unfolding choose
choose-kept p n level buffer event status l h e = ground arith

choose-reset :
    (p : AlertState) (n : Snapshot) (level buffer : ℕ)
    → choose p n level buffer ≡ reset
    → is_kept p.status ≡ false
unfolding choose
choose-reset p n level buffer h = ground arith

-- A state that remembers an announced event and its candle.
abbrev Remembers : BearishEvent → String → AlertState → Type 0
Remembers event candle s =
    (s.last_event ≡ event) × (s.last_closed_candle ≡ candle) × (is_kept s.status ≡ true)

-- One look: it announces another event, or is quiet and forgets nothing.
abbrev IsLook : BearishEvent → String → AlertEvaluation → Type 0
IsLook event candle e =
    ((e.should_notify ≡ true)
      × (is_same_event event e.event_type ≡ false)
      × Remembers e.event_type candle e.state)
    ⊎ ((e.should_notify ≡ false) × Remembers event candle e.state)

-- Any first look: what is announced is remembered.
abbrev IsFirst : String → AlertEvaluation → Type 0
IsFirst candle e =
    ((e.should_notify ≡ true) × Remembers e.event_type candle e.state) ⊎ (e.should_notify ≡ false)

emit-IsFirst :
    (p : AlertState) (n : Snapshot) (buffer : ℕ) (c : Choice)
    → ((event : BearishEvent) (status : AlertStatus) (l : ℕ)
        → c ≡ chosen event status l
        → is_same_event event no_event ≡ false
        → is_kept status ≡ true)
    → IsFirst n.closed (emit p n buffer c)
unfolding emit
emit-IsFirst p n buffer reset k = inr refl
emit-IsFirst p n buffer (chosen event status level) k =
    elim (Bool-cases (is_same_event event no_event)) [
      | inl e ↦ inr (ground (arith, e))
      | inr e ↦ ground (arith, e, k event status level refl e)
    ]

emit-IsLook :
    (p : AlertState) (n : Snapshot) (buffer : ℕ) (c : Choice) (event : BearishEvent)
    → Remembers event n.closed p
    → (c ≡ reset → is_kept p.status ≡ false)
    → ((e : BearishEvent) (status : AlertStatus) (l : ℕ)
        → c ≡ chosen e status l
        → is_same_event e no_event ≡ false
        → is_kept status ≡ true)
    → IsLook event n.closed (emit p n buffer c)
unfolding emit
emit-IsLook p n buffer reset event r z k = absurd (ground (arith, z refl, r.2))
emit-IsLook p n buffer (chosen e status level) event r z k =
    elim (Bool-cases (is_same_event e no_event)) [
      | inl same ↦ inr (ground (arith, same, r.0, r.1, r.2))
      | inr other ↦ ground (
        arith,
        other,
        k e status level refl other,
        r.0,
        r.1,
        r.2,
        eq_refl n.closed,
        ap number r.0,
      )
    ]

evaluate-IsFirst :
    (n : Snapshot) (p : AlertState) → IsFirst n.closed (evaluate_short_alert n (some p))
unfolding evaluate_short_alert
evaluate-IsFirst n p =
    let q = migrated p in
    when_unblocked_cases (IsFirst n.closed) q n (λ b. inr refl)
      (λ buffer level.
        emit-IsFirst q n buffer (choose q n level buffer) (choose-kept q n level buffer))
      (validate_alert_zones n)

evaluate-IsLook :
    (n : Snapshot) (p : AlertState) (event : BearishEvent)
    → Remembers event n.closed p
    → IsLook event n.closed (evaluate_short_alert n (some p))
unfolding evaluate_short_alert
evaluate-IsLook n p event r =
    let q = migrated p in
    let k : Remembers event n.closed q = (r.0, r.1, ground (arith, r.2)) in
    when_unblocked_cases (IsLook event n.closed) q n (λ b. inr (refl, k))
      (λ buffer level.
        emit-IsLook q n buffer (choose q n level buffer) event k (choose-reset q n level buffer)
          (choose-kept q n level buffer))
      (validate_alert_zones n)

-- The events that a run of looks announces, in order.
unfoldable pub announced : AlertState → List Snapshot → List BearishEvent
announced p [] = []
announced p (n ∷ ns) =
    let e = evaluate_short_alert n (some p) in
    let rest = announced e.state ns in if e.should_notify then e.event_type ∷ rest else rest

-- No event is followed by itself.
abbrev pub IsVaried : List BearishEvent → Type 0
IsVaried [] = Unit
IsVaried (a ∷ []) = Unit
IsVaried (a ∷ b ∷ es) = (is_same_event a b ≡ false) × IsVaried (b ∷ es)

after_event :
    (ns : List Snapshot) (p : AlertState) (event : BearishEvent) (candle : String)
    → Remembers event candle p
    → All (λ n. n.closed ≡ candle) ns
    → IsVaried (event ∷ announced p ns)
unfolding announced
after_event [] p event candle r same = tt
after_event (n ∷ ns) p event candle r same =
    let e = evaluate_short_alert n (some p) in
    let look : IsLook event candle e =
      subst (λ c. IsLook event c e) same.0
        (evaluate-IsLook n p event (r.0, r.1 ∙ sym same.0, r.2)) in
    elim look [
      | inl (told, other, kept) ↦
          rw told (other, after_event ns e.state e.event_type candle kept same.1)
      | inr (silent, kept) ↦ rw silent (after_event ns e.state event candle kept same.1)
    ]

-- However often the alert is evaluated on one closed candle, from whatever state and with whatever
-- prices, levels and plans in between, it never announces an event that is the last one that it
-- announced: an event is repeated only after another one.
pub announced-IsVaried :
    (ns : List Snapshot) (p : AlertState) (candle : String)
    → All (λ n. n.closed ≡ candle) ns
    → IsVaried (announced p ns)
unfolding announced
announced-IsVaried [] p candle same = tt
announced-IsVaried (n ∷ ns) p candle same =
    let e = evaluate_short_alert n (some p) in
    let first : IsFirst candle e = subst (λ c. IsFirst c e) same.0 (evaluate-IsFirst n p) in
    elim first [
      | inl (told, kept) ↦ rw told (after_event ns e.state e.event_type candle kept same.1)
      | inr silent ↦ rw silent (announced-IsVaried ns e.state candle same.1)
    ]
