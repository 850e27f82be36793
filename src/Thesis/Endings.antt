-- ===== src/Thesis/Endings.antt =====
-- When a position ends.
use vi_xauusd.Prelude.{
  if◌then◌else◌, Bool-cases, length, All, suc, ◌≡◌, refl, ap, inl, inr, Bool, true, false, ◌&&◌,
  ◌||◌, List, [], ◌∷◌, arith,
}
use vi_xauusd.Positions.{}
use vi_xauusd.Thesis.{Thesis}
use vi_xauusd.Thesis.Watch.{
  Phase, healthy, warning, defend, soft_pending, soft_invalidated, hard_invalidated, recovered,
  position_data_risk, Invalidation, Look, is_terminal_phase, same_phase, breached, is_new_candle,
  max_loss_hit, emergency_hit, is_bad, move, may_recover, look_intrabar, closed_beyond, decide,
  event_of, evaluate_invalidation,
}

-- The state after looks, one after another.
unfoldable pub watch : Thesis → Invalidation → List Look → Invalidation
watch t s [] = s
watch t s (l ∷ ls) = watch t (evaluate_invalidation t s l).0 ls

-- The price is not at the emergency stop and the loss is below the budget.
abbrev pub IsBearable : Thesis → Look → Type 0
IsBearable t l =
    (emergency_hit t l.current_price ≡ false) × (max_loss_hit t l.current_price ≡ false)

terminal_stays :
    (t : Thesis) (s : Invalidation) (l : Look)
    → is_terminal_phase s.phase ≡ true
    → evaluate_invalidation t s l ≡ (s, [])
unfolding evaluate_invalidation
terminal_stays t s l h = rw h refl

watch_stays :
    (t : Thesis) (s : Invalidation) (ls : List Look)
    → is_terminal_phase s.phase ≡ true
    → watch t s ls ≡ s
unfolding watch
watch_stays t s [] h = refl
watch_stays t s (l ∷ ls) h = rw (terminal_stays t s l h) (watch_stays t s ls h)

-- A thesis that was invalidated stays so, with its reason, its count and its times, at every later
-- look, and no look at it says anything.
pub watch-terminal :
    (t : Thesis) (s : Invalidation) (ls : List Look) (l : Look)
    → is_terminal_phase s.phase ≡ true
    → (watch t s ls ≡ s) × ((evaluate_invalidation t (watch t s ls) l).1 ≡ [])
watch-terminal t s ls l h =
    (watch_stays t s ls h, rw (watch_stays t s ls h) (ap (λ e. e.1) (terminal_stays t s l h)))

intrabar-open :
    (t : Thesis) (s : Invalidation) (l : Look)
    → is_terminal_phase (look_intrabar t s l).phase ≡ false
unfolding look_intrabar
intrabar-open t s l = ground arith

and_false : (b : Bool) → (b && false) ≡ false
and_false true = refl
and_false false = refl

-- Without a new candle, one of three branches is taken.
decide-between :
    (t : Thesis) (s : Invalidation) (l : Look)
    → IsBearable t l
    → is_new_candle l.candle s.last_candle ≡ false
    → decide t s l
      ≡ (if is_bad l.data_status then move defend position_data_risk s else look_intrabar t s l)
unfolding decide
decide-between t s l h same = simp (h.0, h.1, same, and_false)

evaluate-open :
    (t : Thesis) (s : Invalidation) (l : Look)
    → IsBearable t l
    → is_new_candle l.candle s.last_candle ≡ false
    → is_terminal_phase s.phase ≡ false
    → (is_terminal_phase (evaluate_invalidation t s l).0.phase ≡ false)
      × ((evaluate_invalidation t s l).0.last_candle ≡ s.last_candle)
unfolding evaluate_invalidation
evaluate-open t s l h same alive = rw alive (
    rw (decide-between t s l h same) (
      rw same (elim (Bool-cases (is_bad l.data_status)) [
        | inl b ↦ rw b (refl, refl)
        | inr b ↦ rw b (intrabar-open t s l, refl)
      ])))

-- However the price moves between two candles, an open position stays open as long as the price does
-- not reach the emergency stop and the loss stays below the budget.
pub watch-open :
    (t : Thesis) (s : Invalidation) (ls : List Look)
    → All (λ l. IsBearable t l × (is_new_candle l.candle s.last_candle ≡ false)) ls
    → is_terminal_phase s.phase ≡ false
    → is_terminal_phase (watch t s ls).phase ≡ false
unfolding watch
watch-open t s [] h alive = alive
watch-open t s (l ∷ ls) h alive =
    let step = evaluate-open t s l h.0.0 h.0.1 alive in
    watch-open t (evaluate_invalidation t s l).0 ls (rw step.1 h.1) step.0

-- A new candle that closes beyond the hard level ends an open position at once, whatever its state;
-- with stale data, the position is only defended instead.
pub evaluate-hard_close :
    (t : Thesis) (s : Invalidation) (l : Look)
    → is_terminal_phase s.phase ≡ false
    → IsBearable t l
    → is_new_candle l.candle s.last_candle ≡ true
    → closed_beyond t l t.hard ≡ true
    → (evaluate_invalidation t s l).0.phase
      ≡ (if is_bad l.data_status then defend else hard_invalidated)
unfolding evaluate_invalidation decide
evaluate-hard_close t s l alive h fresh beyond = rw alive (
    rw h.0 (
      rw h.1 (elim (Bool-cases (is_bad l.data_status)) [
        | inl b ↦ rw b refl
        | inr b ↦ rw b (rw fresh (rw beyond refl))
      ])))

intrabar-pending :
    (t : Thesis) (s : Invalidation) (l : Look)
    → s.phase ≡ soft_pending
    → (look_intrabar t s l).phase
      ≡ (if breached t.direction l.current_price t.warning then warning else healthy)
unfolding look_intrabar
intrabar-pending t s l pending =
    elim (Bool-cases (breached t.direction l.current_price t.warning)) [
      | inl b ↦ rw b refl
      | inr b ↦ rw (b, ap may_recover pending) refl
    ]

-- A pending invalidation does not survive a look between two candles: with sound data and a bearable
-- price it becomes a warning or healthy, so that the deadline is no longer watched.
pub evaluate-pending_lost :
    (t : Thesis) (s : Invalidation) (l : Look)
    → s.phase ≡ soft_pending
    → IsBearable t l
    → is_bad l.data_status ≡ false
    → is_new_candle l.candle s.last_candle ≡ false
    → (evaluate_invalidation t s l).0.phase
      ≡ (if breached t.direction l.current_price t.warning then warning else healthy)
unfolding evaluate_invalidation
evaluate-pending_lost t s l pending h sound same =
    rw (ap is_terminal_phase pending)
      (rw (decide-between t s l h same) (rw sound (intrabar-pending t s l pending)))

same_phase_refl : (p : Phase) → same_phase p p ≡ true
same_phase_refl healthy = refl
same_phase_refl warning = refl
same_phase_refl defend = refl
same_phase_refl soft_pending = refl
same_phase_refl soft_invalidated = refl
same_phase_refl hard_invalidated = refl
same_phase_refl recovered = refl

event_count :
    (s n : Invalidation)
    → length (event_of s n)
      ≡ (if same_phase n.phase s.phase || same_phase n.phase healthy then 0 else 1)
event_count s n = elim (Bool-cases (same_phase n.phase s.phase || same_phase n.phase healthy)) [
  | inl e ↦ rw e refl
  | inr e ↦ rw e refl
]

-- An event is raised exactly when the state changes to another one than healthy, one at a time, and
-- the count of transitions grows by one exactly when the state changes.
pub evaluate-events :
    (t : Thesis) (s : Invalidation) (l : Look)
    → let r = evaluate_invalidation t s l in
      (length r.1 ≡ (if same_phase r.0.phase s.phase || same_phase r.0.phase healthy then 0 else 1))
      × (r.0.transition_count
          ≡ (if same_phase r.0.phase s.phase then s.transition_count else suc s.transition_count))
unfolding evaluate_invalidation
evaluate-events t s l = elim (Bool-cases (is_terminal_phase s.phase)) [
  | inl e ↦ rw e (rw (same_phase_refl s.phase) (refl, refl))
  | inr e ↦ rw e (event_count s (decide t s l), refl)
]
