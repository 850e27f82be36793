-- ===== src/Execution/Permission.antt =====
-- When a scenario may be executed.
use vi_xauusd.Prelude.{
  Bool-cases, All, String, ◌≡◌, refl, sym, ap, ◌↔◌, ◌⊎◌, inl, inr, Bool, true, false, not, ◌&&◌,
  ◌||◌, false≢true, List, [], ◌∷◌, ◌++◌, arith, str_eq, eq_iff,
}
use vi_xauusd.Execution.{
  Scenario, Checks, candidate_crossed_invalidation, is_terminal, not_after, candidate_is_fresh,
  is_executable_health, resolve_scenario_validity, is_active, failed, is_empty_list,
  execution_checks, blocked_reasons, can_execute_scenario,
}

-- The two states that an entry may be in.
abbrev pub IsReady : String → Type 0
IsReady l = (l ≡ "ENTRY_READY") ⊎ (l ≡ "CONFIRMED")

IsReady-tests :
    (l : String)
    → IsReady l
    → (is_terminal l ≡ false) × ((str_eq l "ENTRY_READY" || str_eq l "CONFIRMED") ≡ true)
IsReady-tests l (inl e) = rw e (refl, refl)
IsReady-tests l (inr e) = rw e (refl, refl)

abbrev pub IsExecutable : Scenario → Type 0
IsExecutable s =
    (is_executable_health s.data_health ≡ true)
    × (s.entry_confirmation ≡ "READY")
    × IsReady s.lifecycle_state
    × (candidate_crossed_invalidation s ≡ false)
    × (not_after s.expires_at s.evaluated_at ≡ true)

pub or_false : (a b : Bool) → (a || b) ≡ false → (a ≡ false) × (b ≡ false)
or_false true b h = absurd (false≢true (sym h))
or_false false b h = (refl, h)

pub not-true : (b : Bool) → not b ≡ true → b ≡ false
not-true true h = absurd (false≢true h)
not-true false h = refl

pub not-false : (a : Bool) → not a ≡ false → a ≡ true
not-false true h = refl
not-false false h = absurd (false≢true (sym h))

IsReady-of : (l : String) → (str_eq l "ENTRY_READY" || str_eq l "CONFIRMED") ≡ true → IsReady l
IsReady-of l h = ground (arith, h, eq_iff l "ENTRY_READY", eq_iff l "CONFIRMED")

pub text_of : (s t : String) → str_eq s t ≡ true → s ≡ t
text_of s t h = ground (arith, h, eq_iff s t)

and_true : (a b : Bool) → (a && b) ≡ true → b ≡ true
and_true true b h = h
and_true false b h = absurd (false≢true h)

-- The four tests of the code, none of which holds.
untouched :
    (s : Scenario) (bad worse : Bool)
    → (not (is_executable_health s.data_health) || str_eq s.entry_confirmation "BLOCKED_BY_DATA")
      ≡ false
    → (candidate_crossed_invalidation s || bad) ≡ false
    → (not (candidate_is_fresh s) || worse) ≡ false
    → (not (str_eq s.entry_confirmation "READY")
        || not (str_eq s.lifecycle_state "ENTRY_READY" || str_eq s.lifecycle_state "CONFIRMED"))
      ≡ false
    → IsExecutable s
unfolding candidate_is_fresh
untouched s bad worse a b c d =
    let confirmed = or_false _ _ d in
    (
      not-false _ (or_false _ _ a).0,
      text_of s.entry_confirmation "READY" (not-false _ confirmed.0),
      IsReady-of s.lifecycle_state (not-false _ confirmed.1),
      (or_false _ _ b).0,
      and_true _ _ (not-false _ (or_false _ _ c).0),
    )

active-IsExecutable :
    (s : Scenario) → is_active (resolve_scenario_validity s) ≡ true → IsExecutable s
unfolding resolve_scenario_validity
active-IsExecutable s h =
    let l = s.lifecycle_state in
    elim (Bool-cases
      (not (is_executable_health s.data_health) || str_eq s.entry_confirmation "BLOCKED_BY_DATA")) [
        | inl a ↦ absurd (false≢true (simp a at h))
        | inr a ↦
            elim (Bool-cases (
              candidate_crossed_invalidation s
              || (str_eq l "INVALIDATED" || str_eq l "ARCHIVED" || str_eq l "MISSED"))) [
                | inl b ↦ absurd (false≢true (simp (a, b) at h))
                | inr b ↦ elim (Bool-cases (not (candidate_is_fresh s) || str_eq l "EXPIRED")) [
                  | inl c ↦ absurd (false≢true (simp (a, b, c) at h))
                  | inr c ↦
                      elim (Bool-cases (
                        not (str_eq s.entry_confirmation "READY")
                        || not (str_eq l "ENTRY_READY" || str_eq l "CONFIRMED"))) [
                          | inl d ↦ absurd (false≢true (simp (a, b, c, d) at h))
                          | inr d ↦ untouched s _ _ a b c d
                        ]
                ]
              ]
      ]

IsExecutable-active :
    (s : Scenario)
    → IsExecutable s
    → (is_active (resolve_scenario_validity s) ≡ true) × (candidate_is_fresh s ≡ true)
unfolding resolve_scenario_validity candidate_is_fresh
IsExecutable-active s h =
    let ready = IsReady-tests s.lifecycle_state h.2 in
    let not_blocked : str_eq s.entry_confirmation "BLOCKED_BY_DATA" ≡ false = rw h.1 refl in
    let is_ready : str_eq s.entry_confirmation "READY" ≡ true = rw h.1 refl in
    ground (arith, h.0, h.3, h.4, ready.0, ready.1, not_blocked, is_ready)

pub failed-All :
    {A : Type 0} (cs : List (Bool × A))
    → is_empty_list (failed cs) ≡ true
    → All (λ c. c.0 ≡ true) cs
failed-All [] h = tt
failed-All ((true, name) ∷ cs) h = (refl, failed-All cs h)
failed-All ((false, name) ∷ cs) h = absurd (false≢true h)

pub append_empty : {A : Type 0} (xs ys : List A) → xs ++ ys ≡ [] → (xs ≡ []) × (ys ≡ [])
append_empty [] ys h = (refl, h)
append_empty (x ∷ xs) ys h = absurd (false≢true (ap is_empty_list h))

pub passed : {A : Type 0} (cs : List (Bool × A)) → failed cs ≡ [] → All (λ c. c.0 ≡ true) cs
passed cs h = failed-All cs (ap is_empty_list h)

All-failed :
    {A : Type 0} (cs : List (Bool × A))
    → All (λ c. c.0 ≡ true) cs
    → is_empty_list (failed cs) ≡ true
All-failed [] h = refl
All-failed ((passed, name) ∷ cs) h = rw h.0 (All-failed cs h.1)

-- A scenario may be executed exactly when the data are healthy or recovering, the entry is confirmed,
-- the lifecycle is ready or confirmed, the price has not crossed the invalidation, the candidate has
-- not expired, and the candle, the zone, the risk, the ratio and the stop are all in order.
pub can_execute_iff :
    (s : Scenario) (c : Checks)
    → (can_execute_scenario s c ≡ true) ↔ (
        IsExecutable s
        × (c.closed_candle_confirmed ≡ true)
        × (c.in_executable_zone ≡ true)
        × (c.risk_valid ≡ true)
        × (c.rr_valid ≡ true)
        × (c.stop_valid ≡ true))
unfolding can_execute_scenario blocked_reasons execution_checks
can_execute_iff s c = (
  λ h.
      let p = failed-All (execution_checks s c) h in
      (
        active-IsExecutable s p.1.1.0,
        p.1.1.1.0,
        p.1.1.1.1.0,
        p.1.1.1.1.1.0,
        p.1.1.1.1.1.1.0,
        p.1.1.1.1.1.1.1.1.0,
      ),
  λ h.
      let a = IsExecutable-active s h.0 in
      let r : str_eq s.entry_confirmation "READY" ≡ true = rw h.0.1 refl in
      All-failed (execution_checks s c)
        (h.0.0, (r, (a.0, (h.1, (h.2, (h.3, (h.4, (a.1, (h.5, tt))))))))),
)
