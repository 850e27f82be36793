-- ===== src/Policy/Urgent.antt =====
-- The events about an open position: how urgent they are, and how long they last.
use vi_xauusd.Prelude.{
  if◌then◌else◌, Bool-cases, All, ℕ, String, ◌≡◌, refl, sym, inl, inr, Bool, true, false, not, ◌&&◌,
  ◌||◌, false≢true, none, some, List, [], ◌∷◌, str_eq,
}
use vi_xauusd.Execution.Permission.{text_of}
use vi_xauusd.Policy.Tables.{one_of, critical_events, position_events}
use vi_xauusd.Policy.{
  Payload, p0, yes_to, classify_action, is_user_actionable, eligibility, actionability_ttl,
  is_older, is_expired,
}
use mathlib.Core.Path.{subst}

-- The end of a position, or its defence.
abbrev pub unending_events : List String
unending_events = "STOP_TRIGGERED" ∷ "POSITION_EXIT" ∷ "HARD_INVALIDATED" ∷ "POSITION_DEFEND" ∷ []

abbrev pub IsUrgent : Payload → ℕ → Type 0
IsUrgent p now =
    ((eligibility p).eligible ≡ true)
    × ((eligibility p).user_priority ≡ some p0)
    × ((eligibility p).bypass ≡ true)
    × (is_expired p now
        ≡ (not (one_of p.event_type unending_events) && is_older now (some 3600) p.generated_at))

abbrev named : String → Payload → Payload
named e p = record p { event_type = e }

-- What the name of an event says of its time to live.
abbrev IsTimed : String → Type 0
IsTimed e = actionability_ttl e ≡ (if one_of e unending_events then none else some 3600)

expired_if :
    (b : Bool) (p : Payload) (now : ℕ)
    → one_of p.event_type unending_events ≡ b
    → actionability_ttl p.event_type ≡ (if b then none else some 3600)
    → is_expired p now
      ≡ (not (one_of p.event_type unending_events) && is_older now (some 3600) p.generated_at)
unfolding is_expired
expired_if true p now u t = rw (u, t) refl
expired_if false p now u t = rw (u, t) refl

urgent :
    (p : Payload) (now : ℕ) (e : String)
    → is_user_actionable (named e p) ≡ yes_to "POSITION_ACTION" p0
    → str_eq e "CANDLE_FINALIZED" ≡ false
    → IsTimed e
    → IsUrgent (named e p) now
unfolding eligibility
urgent p now e a f t =
    rw f (rw a (refl, refl, refl, expired_if (one_of e unending_events) (named e p) now refl t))

-- A claim about each text of a list holds of any text that is found in it.
one_of-All :
    (P : String → Type 0) (e : String) (names : List String)
    → All P names
    → one_of e names ≡ true
    → P e
one_of-All P e [] h o = absurd (false≢true o)
one_of-All P e (x ∷ xs) h o = elim (Bool-cases (str_eq e x)) [
  | inl same ↦ subst P (sym (text_of e x same)) h.0
  | inr other ↦ one_of-All P e xs h.1 (rw other at o)
]

critical-IsUrgent :
    (p : Payload) (now : ℕ)
    → p.is_log_only ≡ false
    → All (λ e. IsUrgent (named e p) now) critical_events
unfolding is_user_actionable classify_action actionability_ttl
critical-IsUrgent p now h = (
  urgent p now "STOP_TRIGGERED" (rw h refl) refl refl,
  (
    urgent p now "POSITION_EXIT" (rw h refl) refl refl,
    (urgent p now "HARD_INVALIDATED" (rw h refl) refl refl, tt),
  ),
)

position-IsUrgent :
    (p : Payload) (now : ℕ)
    → p.is_log_only ≡ false
    → All (λ e. IsUrgent (named e p) now) position_events
unfolding is_user_actionable classify_action actionability_ttl
position-IsUrgent p now h = (
  urgent p now "EXIT_NOW" (rw h refl) refl refl,
  (
    urgent p now "EXIT_ZONE_REACHED" (rw h refl) refl refl,
    (
      urgent p now "EARLY_EXIT" (rw h refl) refl refl,
      (
        urgent p now "STOP_TRIGGERED" (rw h refl) refl refl,
        (
          urgent p now "POSITION_DEFEND" (rw h refl) refl refl,
          (
            urgent p now "TP1_HIT" (rw h refl) refl refl,
            (
              urgent p now "TP2_HIT" (rw h refl) refl refl,
              (
                urgent p now "TP3_HIT" (rw h refl) refl refl,
                (
                  urgent p now "TAKE_PROFIT_1" (rw h refl) refl refl,
                  (
                    urgent p now "TAKE_PROFIT_2" (rw h refl) refl refl,
                    (
                      urgent p now "TAKE_PROFIT_3" (rw h refl) refl refl,
                      (urgent p now "TRAILING_STOP_UPDATE" (rw h refl) refl refl, tt),
                    ),
                  ),
                ),
              ),
            ),
          ),
        ),
      ),
    ),
  ),
)

-- An event about an open position (a stop that was hit, an exit, a hard invalidation, a defence, a
-- target, a moved stop) is classified as eligible with the highest urgency and marked to bypass the
-- cooldown, whatever else the payload says, unless it is only to be logged. A stop, a POSITION_EXIT, a
-- hard invalidation and a defence never count as expired; every other one of them, EXIT_NOW too, does
-- after an hour, or at once if it has no time.
pub eligibility-IsUrgent :
    (p : Payload) (now : ℕ)
    → (one_of p.event_type critical_events || one_of p.event_type position_events) ≡ true
    → p.is_log_only ≡ false
    → IsUrgent p now
eligibility-IsUrgent p now c h = elim (Bool-cases (one_of p.event_type critical_events)) [
  | inl e ↦
      one_of-All (λ x. IsUrgent (named x p) now) p.event_type critical_events
        (critical-IsUrgent p now h) e
  | inr e ↦
      one_of-All (λ x. IsUrgent (named x p) now) p.event_type position_events
        (position-IsUrgent p now h) (rw e at c)
]
