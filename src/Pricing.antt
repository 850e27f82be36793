-- ===== src/Pricing.antt =====
-- app/engines/scenario_safety.py: the order of a scenario's prices, its lifecycle and its
-- reward-to-risk ratio after costs. Prices, the tick size and costs are in one unit, whose halves are
-- written out; a ratio is in hundredths. The digest that names a setup and the prices repeated in the
-- answer are left out.
pub mod Ordered
pub mod Stops
mod Tests
use vi_xauusd.Prelude.{
  ltb, leb, ◌==◌, if◌then◌else◌, or_option, filter, ℕ, suc, ◌+◌, ◌-◌, ◌*◌, String, Bool, true,
  false, not, ◌&&◌, ◌||◌, Option, none, some, List, [], ◌∷◌, str_eq,
}
use vi_xauusd.Prelude.Rounding.{distance, round_ratio}
use vi_xauusd.Positions.{Side, long, short}

pub record PriceZone : Type 0 where
  pub low : ℕ
  pub high : ℕ

pub data Frame : Type 0 where
  min15 hour1 hour4 : Frame

-- A level: the kind that its name states, and its middle.
pub record Level : Type 0 where
  pub kind : String
  pub mid : ℕ

pub record StructuralStop : Type 0 where
  pub level : Level
  pub timeframe : Frame

pub data StructureError : Type 0 where
  no_targets entry_outside_zone stop_not_beyond_zone : StructureError
  target_out_of_order : ℕ → StructureError

pub data LifecycleStatus : Type 0 where
  invalid expired confirmed_wait_retest waiting_for_confirmation : LifecycleStatus
  waiting_for_entry ready breakout_pending : LifecycleStatus

unfoldable pub conservative_entry : Side → PriceZone → ℕ
conservative_entry long z = z.high
conservative_entry short z = z.low

-- `f"SWING_{side}_{timeframe}"`
abbrev pub swing_kind : Side → Frame → String
swing_kind long min15 = "SWING_LOW_15M"
swing_kind long hour1 = "SWING_LOW_1H"
swing_kind long hour4 = "SWING_LOW_4H"
swing_kind short min15 = "SWING_HIGH_15M"
swing_kind short hour1 = "SWING_HIGH_1H"
swing_kind short hour4 = "SWING_HIGH_4H"

abbrev pub boundary_of : Side → PriceZone → ℕ
boundary_of long z = z.low
boundary_of short z = z.high

-- The price lies on the stop's side of the zone.
abbrev pub is_beyond_zone : Side → PriceZone → ℕ → Bool
is_beyond_zone long z price = ltb price z.low
is_beyond_zone short z price = ltb z.high price

abbrev pub is_candidate : Side → PriceZone → Frame → Level → Bool
is_candidate side z frame l = str_eq l.kind (swing_kind side frame) && is_beyond_zone side z l.mid

-- `min(candidates, key=...)`: the first one at the least distance.
abbrev pub nearest : ℕ → Level → List Level → Level
nearest boundary best [] = best
nearest boundary best (l ∷ ls) =
    nearest boundary
      (if ltb (distance l.mid boundary) (distance best.mid boundary) then l else best) ls

abbrev pub stop_in : Side → PriceZone → Frame → List Level → Option StructuralStop
stop_in side z frame [] = none
stop_in side z frame (l ∷ ls) =
    some (record { level = nearest (boundary_of side z) l ls; timeframe = frame })

unfoldable pub select_structural_stop : Side → PriceZone → List Level → Option StructuralStop
select_structural_stop side z levels =
    let of : Frame → Option StructuralStop =
      λ frame. stop_in side z frame (filter (is_candidate side z frame) levels) in
    or_option (of min15) (or_option (of hour1) (of hour4))

-- The loop over the targets, from the end of the range before; `tick` is twice the tolerance.
unfoldable pub target_errors : Side → ℕ → ℕ → ℕ → List PriceZone → List StructureError
target_errors side tick index prior [] = []
target_errors long tick index prior (t ∷ ts) =
    let rest = target_errors long tick (suc index) t.high ts in
    if leb (2 * t.low) (2 * prior + tick) || ltb t.high t.low
    then target_out_of_order index ∷ []
    else rest
target_errors short tick index prior (t ∷ ts) =
    let rest = target_errors short tick (suc index) t.low ts in
    if leb (2 * prior) (2 * t.high + tick) || ltb t.high t.low
    then target_out_of_order index ∷ []
    else rest

abbrev pub stop_is_inside : Side → ℕ → PriceZone → ℕ → Bool
stop_is_inside long tick z stop = leb (2 * z.low) (2 * stop + tick)
stop_is_inside short tick z stop = leb (2 * stop) (2 * z.high + tick)

abbrev pub has_no_targets : List PriceZone → Bool
has_no_targets [] = true
has_no_targets (t ∷ ts) = false

unfoldable pub validate_price_structure :
    Side → PriceZone → ℕ → ℕ → List PriceZone → ℕ → List StructureError
validate_price_structure side z planned stop targets tick =
    if has_no_targets targets
    then no_targets ∷ []
    else if ltb (2 * planned + tick) (2 * z.low) || ltb (2 * z.high + tick) (2 * planned)
    then entry_outside_zone ∷ []
    else if stop_is_inside side tick z stop
    then stop_not_beyond_zone ∷ []
    else target_errors side tick 1 (conservative_entry side z) targets

pub record Costs : Type 0 where
  pub spread : ℕ
  pub slippage : ℕ
  pub fees : ℕ

-- Twice the friction, and twice the distances after it; a distance that is not positive is 0.
unfoldable pub friction : Costs → ℕ
friction c = c.spread + 2 * c.slippage + 2 * c.fees

unfoldable pub risk_distance : Side → ℕ → ℕ → ℕ → ℕ
risk_distance long entry stop f = (2 * entry + f + f) - 2 * stop
risk_distance short entry stop f = (2 * stop + f + f) - 2 * entry

unfoldable pub reward_distance : Side → ℕ → ℕ → ℕ → ℕ
reward_distance long entry target f = 2 * target - (2 * entry + f + f)
reward_distance short entry target f = 2 * entry - (2 * target + f + f)

-- The `ratio` of `calculate_risk_reward`, none where it is not available.
unfoldable pub calculate_risk_reward : Side → ℕ → ℕ → ℕ → Costs → Option ℕ
unfolding friction risk_distance reward_distance round_ratio
calculate_risk_reward side entry stop target c =
    let risk = risk_distance side entry stop (friction c) in
    let reward = reward_distance side entry target (friction c) in
    if risk == 0 || reward == 0 then none else some (round_ratio (100 * reward) risk)

abbrev pub with_confirmations : Bool → LifecycleStatus → LifecycleStatus → LifecycleStatus
with_confirmations passed confirmed open_yet = if passed then confirmed else open_yet

unfoldable pub lifecycle_status : Side → ℕ → PriceZone → PriceZone → Bool → Bool → LifecycleStatus
lifecycle_status side price z target valid passed =
    let over = with_confirmations passed confirmed_wait_retest waiting_for_confirmation in
    let within = with_confirmations passed ready breakout_pending in
    if not valid then invalid else elim side [
      | long ↦
          if leb target.low price
          then expired
          else if ltb z.high price
          then over
          else if ltb price z.low
          then waiting_for_entry
          else within
      | short ↦
          if leb price target.high
          then expired
          else if ltb price z.low
          then over
          else if ltb z.high price
          then waiting_for_entry
          else within
    ]
