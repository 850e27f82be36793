-- ===== src/Execution/Consistency.antt =====
-- app/engines/decision_consistency.py, `validate_final_decision` and `fail_closed`. The errors are in
-- the order of the code, which sorts their names; none comes twice.
pub mod Ordered
use vi_xauusd.Prelude.{
  ltb, leb, ◌==◌, if◌then◌else◌, any, All, ℕ, ◌≤◌, ◌<◌, ◌≡◌, refl, Bool, true, false, not, ◌&&◌,
  ◌||◌, false≢true, Option, none, some, List, [], ◌∷◌, ◌++◌, arith,
}
use vi_xauusd.Execution.{failed}

pub data Action : Type 0 where
  enter_long enter_short no_trade other_action : Action

pub data Side : Type 0 where
  long short no_side : Side

pub data LiveState : Type 0 where
  invalidating suspended reversal_candidate other_live : LiveState

pub data Gate : Type 0 where
  gate_ready gate_probe internal_conflict other_gate : Gate

pub data Lifecycle : Type 0 where
  lifecycle_ready lifecycle_confirmed other_lifecycle : Lifecycle

pub data Error : Type 0 where
  zone_reversed long_zone_above_chase short_zone_below_chase : Error
  long_target_wrong_side short_target_wrong_side : Error
  live_bias_suspension neutral_execution_bias invalidated_structural_direction : Error
  price_outside_zone long_above_chase short_below_chase : Error
  long_invalidation_wrong_side short_invalidation_wrong_side : Error
  risk_block without_ready_lifecycle mixed_versions direction_conflict : Error

pub record Decision : Type 0 where
  pub final_action : Action
  pub direction : Side
  pub low : Option ℕ
  pub high : Option ℕ
  pub current : Option ℕ
  pub chase : Option ℕ
  pub invalidation : Option ℕ
  pub targets : List (Option ℕ)
  pub risk_gate : Gate
  pub lifecycle : Lifecycle
  pub versions : List ℕ
  pub live_state : LiveState
  pub has_execution_bias : Bool
  pub structural_side : Side
  pub can_enter : Bool

abbrev pub is_long : Side → Bool
is_long long = true
is_long _ = false

abbrev pub is_short : Side → Bool
is_short short = true
is_short _ = false

abbrev pub enters_long : Action → Bool
enters_long enter_long = true
enters_long _ = false

abbrev pub enters_short : Action → Bool
enters_short enter_short = true
enters_short _ = false

-- Neither a neutral direction nor a structure without a side is equal to another.
abbrev pub same_side : Side → Side → Bool
same_side long long = true
same_side short short = true
same_side _ _ = false

abbrev pub is_invalidating : LiveState → Bool
is_invalidating invalidating = true
is_invalidating suspended = true
is_invalidating _ = false

abbrev pub is_reversal : LiveState → Bool
is_reversal reversal_candidate = true
is_reversal _ = false

abbrev pub gate_opens : Gate → Bool
gate_opens gate_ready = true
gate_opens gate_probe = true
gate_opens _ = false

abbrev pub lacks_lifecycle : Gate → Lifecycle → Bool
lacks_lifecycle gate_ready lifecycle_ready = false
lacks_lifecycle gate_ready _ = true
lacks_lifecycle gate_probe other_lifecycle = true
lacks_lifecycle _ _ = false

-- Both are there, and the test holds of them.
abbrev pub both : Option ℕ → Option ℕ → (ℕ → ℕ → Bool) → Bool
both (some a) (some b) test = test a b
both _ _ test = false

abbrev pub first_target : List (Option ℕ) → Option ℕ
first_target [] = none
first_target (none ∷ ts) = first_target ts
first_target (some t ∷ ts) = some t

abbrev pub is_mixed : List ℕ → Bool
is_mixed [] = false
is_mixed (v ∷ vs) = any (λ w. not (w == v)) vs

abbrev pub is_outside : Option ℕ → Option ℕ → Option ℕ → Bool
is_outside (some low) (some high) (some c) = not (leb low c && leb c high)
is_outside _ _ _ = true

abbrev pub zone_checks : Decision → List (Bool × Error)
zone_checks d =
    (not (both d.low d.high (λ l h. ltb h l)), zone_reversed)
    ∷ (not (is_long d.direction && both d.high d.chase (λ h c. ltb c h)), long_zone_above_chase)
    ∷ (not (is_short d.direction && both d.low d.chase (λ l c. ltb l c)), short_zone_below_chase)
    ∷ (
      not (is_long d.direction && both d.high (first_target d.targets) (λ h t. leb t h)),
      long_target_wrong_side,
    )
    ∷ (
      not (is_short d.direction && both d.low (first_target d.targets) (λ l t. leb l t)),
      short_target_wrong_side,
    )
    ∷ []

-- Those of an action that enters.
abbrev pub entry_checks : Decision → List (Bool × Error)
entry_checks d =
    let buys = enters_long d.final_action in
    let sells = enters_short d.final_action in
    (not (is_invalidating d.live_state), live_bias_suspension)
    ∷ (d.has_execution_bias, neutral_execution_bias)
    ∷ (
      not (same_side d.direction d.structural_side && is_reversal d.live_state),
      invalidated_structural_direction,
    )
    ∷ (not (is_outside d.low d.high d.current), price_outside_zone)
    ∷ (not (buys && both d.chase d.current (λ c p. ltb c p)), long_above_chase)
    ∷ (not (sells && both d.chase d.current (λ c p. ltb p c)), short_below_chase)
    ∷ (not (buys && both d.invalidation d.low (λ i l. leb l i)), long_invalidation_wrong_side)
    ∷ (not (sells && both d.invalidation d.high (λ i h. leb i h)), short_invalidation_wrong_side)
    ∷ (gate_opens d.risk_gate, risk_block)
    ∷ (not (lacks_lifecycle d.risk_gate d.lifecycle), without_ready_lifecycle)
    ∷ []

abbrev pub end_checks : Decision → List (Bool × Error)
end_checks d =
    (not (is_mixed d.versions), mixed_versions)
    ∷ (
      not (
          (is_long d.direction && enters_short d.final_action)
          || (is_short d.direction && enters_long d.final_action)),
      direction_conflict,
    )
    ∷ []

unfoldable pub validate_final_decision : Decision → List Error
validate_final_decision d =
    failed (zone_checks d)
    ++ ((if enters_long d.final_action || enters_short d.final_action
          then failed (entry_checks d)
          else [])
        ++ failed (end_checks d))

unfoldable pub fail_closed : Decision → Decision
fail_closed d = record d {
  final_action = no_trade;
  can_enter = false;
  risk_gate = internal_conflict;
}
