-- ===== src/Gate.antt =====
-- app/engines/entry_opportunity_gate.py: the tier of each candidate entry and the choice among them.
-- Prices are hundredths, ratios too; texts are in capitals, as the code makes them. The score is kept as
-- what adds to it and what takes from it, and the lists of components and reasons are left out.
mod Tests
pub mod Safe
pub mod Choice
use vi_xauusd.Prelude.{
  ltb, leb, ◌==◌, if◌then◌else◌, or_else, and_some, ℕ, ◌+◌, ◌-◌, ◌*◌, ◌/◌, min, max, String, Bool,
  true, false, not, ◌&&◌, ◌||◌, Option, none, some, List, [], ◌∷◌, str_eq,
}
use vi_xauusd.Prelude.Int.{ℤ, pos_part, neg_part}
use vi_xauusd.Execution.{Stamp, missing, at, failed, is_empty_list}

pub data Side : Type 0 where
  long short : Side

-- Of `lifecycle`: ready, confirmed or triggered, over, or something else.
pub data Stage : Type 0 where
  ready confirmed over forming : Stage

pub data DistanceState : Type 0 where
  no_zone good_distance acceptable_distance chase_zone distant : DistanceState

pub data Hard : Type 0 where
  data_stale price_data_desync market_closed event_blackout spread_abnormal position_active : Hard
  live_bias_invalidating scenario_invalidated stop_invalid rr_below_minimum in_chase_zone
        candle_not_closed :
      Hard

pub data State : Type 0 where
  blocked watch probe_ready entry_ready : State

-- The settings that the gate reads.
pub record GateSettings : Type 0 where
  pub absolute_min_rr : ℕ
  pub ideal_rr : ℕ
  pub degraded_data_penalty : ℕ
  pub partial_confirmation_penalty : ℕ
  pub counter_4h_penalty : ℕ
  pub counter_1d_penalty : ℕ
  pub full_score : ℕ
  pub probe_score : ℕ

pub record Candidate : Type 0 where
  pub direction : Side
  pub strength : ℕ
  pub risk_reward : Option ℕ
  pub stage : Stage
  pub zone : Option (ℕ × ℕ)
  pub chase_limit : Option ℕ
  pub stop : Option ℕ
  pub expires_at : Stamp
  pub is_recognized : Bool

pub record Situation : Type 0 where
  pub current_price : ℕ
  pub data_health : String
  pub has_desync : Bool
  pub is_closed : Bool
  pub is_blackout : Bool
  pub has_wide_spread : Bool
  pub has_position : Bool
  pub live_bias_state : String
  pub structural_side : Option Side
  pub evaluated_at : Stamp
  pub clock : ℕ
  pub closed_candle_available : Bool
  pub bias15m : Option Side
  pub bias1h : Option Side
  pub bias4h : Option Side
  pub bias1d : Option Side
  pub market_bias : Option Side
  pub momentum : String
  pub defense_state : String
  pub market_behavior : String
  pub scenario_validity : String
  pub volume_impact : Side → ℤ

abbrev pub same_side : Side → Side → Bool
same_side long long = true
same_side short short = true
same_side _ _ = false

-- Past the chase limit, or past the zone where there is none.
abbrev pub is_chasing : Candidate → ℕ → ℕ → ℕ → Bool
is_chasing c low high price = elim c.direction [
  | long ↦ ltb (or_else c.chase_limit high) price
  | short ↦ ltb price (or_else c.chase_limit low)
]

unfoldable pub distance_state : Candidate → ℕ → Option (ℕ × ℕ) → DistanceState
distance_state c price none = no_zone
distance_state c price (some (a, b)) =
    let low = min a b in
    let high = max a b in
    if leb low price && leb price high
    then (if leb (100 * min (price - low) (high - price)) (15 * max (high - low) 1)
        then acceptable_distance
        else good_distance)
    else if is_chasing c low high price
    then chase_zone
    else distant

abbrev pub is_broken : String → Bool
is_broken h = str_eq h "STALE" || str_eq h "FAILED" || str_eq h "DISCONNECTED"

abbrev pub is_suspended : String → Bool
is_suspended l = str_eq l "INVALIDATING" || str_eq l "REVERSAL_CANDIDATE" || str_eq l "SUSPENDED"

abbrev pub is_over : Stage → Bool
is_over over = true
is_over _ = false

-- `evaluated >= expiry`, and a time that cannot be read. The clock counts where there is no time of
-- the evaluation.
abbrev pub has_expired : Stamp → Stamp → ℕ → Bool
has_expired missing _ clock = false
has_expired (at expiry) (at now) clock = leb expiry now
has_expired (at expiry) missing clock = leb expiry clock
has_expired _ _ clock = true

unfoldable pub stop_valid : Side → ℕ → Option ℕ → Bool
stop_valid side price none = false
stop_valid long price (some s) = ltb s price
stop_valid short price (some s) = ltb price s

abbrev pub is_chase : DistanceState → Bool
is_chase chase_zone = true
is_chase _ = false

abbrev pub is_ready : Stage → Bool
is_ready ready = true
is_ready _ = false

-- What fails is a hard block; the order of those found late is left out.
unfoldable pub hard_checks : GateSettings → Candidate → Situation → List (Bool × Hard)
unfolding distance_state stop_valid
hard_checks g c s =
    (not (is_broken s.data_health), data_stale)
    ∷ (not s.has_desync, price_data_desync)
    ∷ (not s.is_closed, market_closed)
    ∷ (not s.is_blackout, event_blackout)
    ∷ (not s.has_wide_spread, spread_abnormal)
    ∷ (not s.has_position, position_active)
    ∷ (
      not (
          and_some s.structural_side (λ side. same_side c.direction side)
          && is_suspended s.live_bias_state),
      live_bias_invalidating,
    )
    ∷ (
      not (
          is_over c.stage
          || has_expired c.expires_at s.evaluated_at s.clock
          || str_eq s.scenario_validity "INVALIDATED"
          || str_eq s.scenario_validity "STALE"),
      scenario_invalidated,
    )
    ∷ (stop_valid c.direction s.current_price c.stop, stop_invalid)
    ∷ (and_some c.risk_reward (λ rr. leb g.absolute_min_rr rr), rr_below_minimum)
    ∷ (not (is_chase (distance_state c s.current_price c.zone)), in_chase_zone)
    ∷ (not (is_ready c.stage) || s.closed_candle_available, candle_not_closed)
    ∷ []

unfoldable pub hard_blocks : GateSettings → Candidate → Situation → List Hard
unfolding hard_checks
hard_blocks g c s = failed (hard_checks g c s)

-- What adds to the score and what takes from it.
abbrev pub Points : Type 0
Points = ℕ × ℕ

abbrev pub is_against : Side → Option Side → Bool
is_against d o = and_some o (λ side. not (same_side d side))

abbrev pub penalty_if : Bool → ℕ → Points
penalty_if b n = if b then (0, n) else (0, 0)

abbrev pub health_points : GateSettings → String → Points
health_points g h =
    penalty_if (not (is_broken h) && not (str_eq h "HEALTHY" || str_eq h "GOOD"))
      g.degraded_data_penalty

abbrev pub ratio_points : GateSettings → Option ℕ → Points
ratio_points g none = (0, 0)
ratio_points g (some rr) =
    if ltb rr g.absolute_min_rr then (0, 0) else if leb g.ideal_rr rr then (12, 0) else (4, 2)

abbrev pub distance_points : DistanceState → Points
distance_points chase_zone = (0, 0)
distance_points good_distance = (10, 0)
distance_points acceptable_distance = (4, 2)
distance_points _ = (0, 8)

abbrev pub stage_points : GateSettings → Stage → Bool → Points
stage_points g ready is_available = if is_available then (16, 0) else (0, 0)
stage_points g confirmed _ = (10, g.partial_confirmation_penalty)
stage_points g _ _ = (0, g.partial_confirmation_penalty)

abbrev pub bias_points : Side → Option Side → ℕ → ℕ → Points
bias_points d none gain loss = (0, 0)
bias_points d (some side) gain loss = if same_side side d then (gain, 0) else (0, loss)

abbrev pub momentum_points : String → Points
momentum_points m =
    if str_eq m "STRONG" || str_eq m "ACCELERATING"
    then (4, 0)
    else penalty_if (str_eq m "MEDIUM" || str_eq m "STABLE" || str_eq m "WEAKENING") 3

abbrev pub is_opposite_behavior : Side → String → Bool
is_opposite_behavior long b =
    str_eq b "SLOW_BEARISH_DRIFT" || str_eq b "BEARISH_IMPULSE" || str_eq b "BEARISH_BREAKDOWN"
is_opposite_behavior short b =
    str_eq b "SLOW_BULLISH_DRIFT" || str_eq b "BULLISH_IMPULSE" || str_eq b "BULLISH_BREAKOUT"

-- `round(base_score * .40)`; two fifths of a whole number never end in a half.
abbrev pub base_points : ℕ → Points
base_points strength = ((4 * min 100 (if strength == 0 then 50 else strength) + 5) / 10, 0)

unfoldable pub points_of : GateSettings → Candidate → Situation → List Points
unfolding distance_state
points_of g c s =
    let d = c.direction in
    base_points c.strength
    ∷ health_points g s.data_health
    ∷ ratio_points g c.risk_reward
    ∷ distance_points (distance_state c s.current_price c.zone)
    ∷ stage_points g c.stage s.closed_candle_available
    ∷ bias_points d s.bias15m 8 12
    ∷ bias_points d s.bias1h 6 7
    ∷ penalty_if (is_against d s.bias4h) g.counter_4h_penalty
    ∷ penalty_if (is_against d s.bias1d) g.counter_1d_penalty
    ∷ penalty_if (is_against d s.market_bias) 4
    ∷ (if c.is_recognized then (6, 0) else (0, 0))
    ∷ momentum_points s.momentum
    ∷ penalty_if (str_eq s.defense_state "TESTING" || str_eq s.defense_state "BROKEN_PENDING_CLOSE")
        8
    ∷ penalty_if (is_opposite_behavior d s.market_behavior) 30
    ∷ (min 20 (pos_part (s.volume_impact d)), min 20 (neg_part (s.volume_impact d)))
    ∷ []

unfoldable pub sum_gains : List Points → ℕ
sum_gains [] = 0
sum_gains ((gain, loss) ∷ ps) = gain + sum_gains ps

unfoldable pub sum_losses : List Points → ℕ
sum_losses [] = 0
sum_losses ((gain, loss) ∷ ps) = loss + sum_losses ps

-- `max(0, min(100, score))`
unfoldable pub score_of : GateSettings → Candidate → Situation → ℕ
unfolding points_of sum_gains sum_losses
score_of g c s = min 100 (sum_gains (points_of g c s) - sum_losses (points_of g c s))

abbrev pub is_confirmed : Stage → Bool
is_confirmed ready = true
is_confirmed confirmed = true
is_confirmed _ = false

abbrev pub is_good : DistanceState → Bool
is_good good_distance = true
is_good _ = false

abbrev pub is_in_zone : DistanceState → Bool
is_in_zone good_distance = true
is_in_zone acceptable_distance = true
is_in_zone _ = false

unfoldable pub state_of : GateSettings → Candidate → Situation → State
unfolding hard_blocks score_of distance_state
state_of g c s =
    let distance = distance_state c s.current_price c.zone in
    if not (is_empty_list (hard_blocks g c s))
    then blocked
    else if leb g.full_score (score_of g c s) && is_ready c.stage && is_good distance
    then entry_ready
    else if leb g.probe_score (score_of g c s) && is_confirmed c.stage && is_in_zone distance
    then probe_ready
    else watch
