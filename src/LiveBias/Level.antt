-- ===== src/LiveBias/Level.antt =====
-- app/engines/live_bias.py, `_dynamic_level`: the level of the live price that ends the direction.
-- Where no level is near a price, the distance is infinite, which is none.
use vi_xauusd.Prelude.{
  ltb, leb, ◌==◌, if◌then◌else◌, or_else, or_option, ℕ, min, max, Bool, true, false, not, ◌&&◌,
  ◌||◌, Option, none, some, List, [], ◌∷◌,
}
use vi_xauusd.Prelude.Rounding.{distance}

pub data Side : Type 0 where
  long short no_side : Side

pub record Candidate : Type 0 where
  pub direction : Side
  -- Expired, invalidated, superseded or cancelled.
  pub is_over : Bool
  pub invalidation_price : Option ℕ
  pub zone : Option (ℕ × ℕ)

-- The defence line of the health state, the side that it is of, if any, and the 15M levels of the
-- side's kind.
pub record Lines : Type 0 where
  pub defense_level : Option ℕ
  pub defense_side : Option Side
  pub runtime_levels : List ℕ

abbrev pub is_side : Side → Side → Bool
is_side long long = true
is_side short short = true
is_side no_side no_side = true
is_side _ _ = false

-- The distance of the price to the zone; the ends of a zone may be in either order.
abbrev pub zone_distance : Option ℕ → Option (ℕ × ℕ) → Option ℕ
zone_distance (some price) (some (a, b)) =
    let low = min a b in
    let high = max a b in
    some (
      if leb low price && leb price high then 0 else min (distance price low) (distance price high))
zone_distance _ _ = none

-- A level with its distance.
abbrev pub Measured : Type 0
Measured = ℕ × Option ℕ

abbrev pub relevant : Side → Option ℕ → List Candidate → List Measured
relevant side price [] = []
relevant side price (c ∷ cs) =
    let rest = relevant side price cs in
    if is_side c.direction side && not c.is_over
    then (elim c.invalidation_price [
      | none ↦ rest
      | some v ↦ (v, zone_distance price c.zone) ∷ rest
    ])
    else rest

-- Of two levels at one distance, the one further in the direction counts.
abbrev pub breaks_tie : Side → ℕ → ℕ → Bool
breaks_tie long a b = ltb b a
breaks_tie side a b = ltb a b

abbrev pub precedes : Side → Measured → Measured → Bool
precedes side (a, some d) (b, some e) = ltb d e || (d == e && breaks_tie side a b)
precedes side (a, some d) (b, none) = true
precedes side (a, none) (b, some e) = false
precedes side (a, none) (b, none) = breaks_tie side a b

abbrev pub first_of : Side → Measured → List Measured → Measured
first_of side best [] = best
first_of side best (m ∷ ms) = first_of side (if precedes side m best then m else best) ms

abbrev pub closest : ℕ → ℕ → List ℕ → ℕ
closest reference best [] = best
closest reference best (v ∷ vs) =
    closest reference (if ltb (distance v reference) (distance best reference) then v else best) vs

abbrev pub runtime_level : Option ℕ → List ℕ → Option ℕ
runtime_level price [] = none
runtime_level price (v ∷ vs) = some (closest (or_else price v) v vs)

abbrev pub defense_of : Side → Lines → Option ℕ
defense_of side x = elim x.defense_side [
  | none ↦ x.defense_level
  | some s ↦ if is_side s side then x.defense_level else none
]

abbrev pub level_of : Side → Option ℕ → Lines → List Measured → Option ℕ
level_of side price x [] = or_option (defense_of side x) (runtime_level price x.runtime_levels)
level_of side price x (m ∷ ms) = some (first_of side m ms).0

unfoldable pub dynamic_level : Side → Option ℕ → List Candidate → Lines → Option ℕ
dynamic_level side price candidates x = level_of side price x (relevant side price candidates)
