-- ===== src/Pricing/Ordered.antt =====
-- What an accepted price structure promises.
use vi_xauusd.Prelude.{
  ltb, leb, if◌then◌else◌, ℕ, suc, ◌+◌, ◌*◌, ◌≤◌, ◌<◌, ◌≡◌, refl, ap, Bool, true, false, ◌||◌,
  false≢true, List, [], ◌∷◌, arith,
}
use vi_xauusd.Positions.{Side, long, short}
use vi_xauusd.Execution.{is_empty_list}
use vi_xauusd.Execution.Permission.{or_false, passed}
use vi_xauusd.Pricing.{
  PriceZone, StructureError, ready, conservative_entry, target_errors, stop_is_inside,
  has_no_targets, validate_price_structure, lifecycle_status,
}

-- The targets follow one another away from `prior`, and none overlaps the one before.
unfoldable pub IsChain : Side → ℕ → List PriceZone → Type 0
IsChain side prior [] = Unit
IsChain long prior (t ∷ ts) = (prior < t.low) × (t.low ≤ t.high) × IsChain long t.high ts
IsChain short prior (t ∷ ts) = (t.high < prior) × (t.low ≤ t.high) × IsChain short t.low ts

abbrev pub IsBehind : Side → ℕ → PriceZone → Type 0
IsBehind long stop z = stop < z.low
IsBehind short stop z = z.high < stop

rejected_step :
    (bad : Bool) (e : StructureError) (rest : List StructureError)
    → (if bad then e ∷ [] else rest) ≡ []
    → (bad ≡ false) × (rest ≡ [])
rejected_step true e rest h = absurd (false≢true (ap is_empty_list h))
rejected_step false e rest h = (refl, h)

apart : (x tick y : ℕ) → leb (2 * y) (2 * x + tick) ≡ false → x < y
apart x tick y h = ground arith

sorted : (t : PriceZone) → ltb t.high t.low ≡ false → t.low ≤ t.high
sorted t h = ground arith

chain :
    (side : Side) (tick index prior : ℕ) (ts : List PriceZone)
    → target_errors side tick index prior ts ≡ []
    → IsChain side prior ts
unfolding target_errors IsChain
chain side tick index prior [] h = tt
chain long tick index prior (t ∷ ts) h =
    let p = rejected_step (leb (2 * t.low) (2 * prior + tick) || ltb t.high t.low) _ _ h in
    let q = or_false _ _ p.0 in
    (apart prior tick t.low q.0, sorted t q.1, chain long tick (suc index) t.high ts p.1)
chain short tick index prior (t ∷ ts) h =
    let p = rejected_step (leb (2 * prior) (2 * t.high + tick) || ltb t.high t.low) _ _ h in
    let q = or_false _ _ p.0 in
    (apart t.high tick prior q.0, sorted t q.1, chain short tick (suc index) t.low ts p.1)

-- The first target is still ahead of the price, and the stop behind it.
abbrev pub IsAhead : Side → ℕ → PriceZone → Type 0
IsAhead long price t = price < t.low
IsAhead short price t = t.high < price

abbrev pub IsShielded : Side → ℕ → ℕ → Type 0
IsShielded long stop price = stop < price
IsShielded short stop price = price < stop

abbrev pub IsPriceStructure : Side → PriceZone → ℕ → ℕ → List PriceZone → ℕ → Type 0
IsPriceStructure side z planned stop targets tick =
    (has_no_targets targets ≡ false)
    × (2 * z.low ≤ 2 * planned + tick)
    × (2 * planned ≤ 2 * z.high + tick)
    × IsBehind side stop z
    × IsChain side (conservative_entry side z) targets

behind :
    (side : Side) (tick : ℕ) (z : PriceZone) (stop : ℕ)
    → stop_is_inside side tick z stop ≡ false
    → IsBehind side stop z
behind long tick z stop h = ground arith
behind short tick z stop h = ground arith

not_below : (a b : ℕ) → ltb a b ≡ false → b ≤ a
not_below a b h = ground arith

-- An accepted structure has a target, a planned entry within half a tick of the zone, a stop strictly
-- beyond the zone, and targets that lead strictly away from the zone without overlapping.
pub validate-IsPriceStructure :
    (side : Side) (z : PriceZone) (planned stop : ℕ) (targets : List PriceZone) (tick : ℕ)
    → validate_price_structure side z planned stop targets tick ≡ []
    → IsPriceStructure side z planned stop targets tick
unfolding validate_price_structure
validate-IsPriceStructure side z planned stop targets tick h =
    let a = rejected_step (has_no_targets targets) _ _ h in
    let b =
      rejected_step (ltb (2 * planned + tick) (2 * z.low) || ltb (2 * z.high + tick) (2 * planned))
        _ _ a.1 in
    let c = rejected_step (stop_is_inside side tick z stop) _ _ b.1 in
    let d = or_false _ _ b.0 in
    (
      a.0,
      not_below _ _ d.0,
      not_below _ _ d.1,
      behind side tick z stop c.0,
      chain side tick 1 (conservative_entry side z) targets c.1,
    )

lifecycle-ready :
    (side : Side) (price : ℕ) (z t : PriceZone) (valid passed : Bool)
    → lifecycle_status side price z t valid passed ≡ ready
    → (valid ≡ true) × (passed ≡ true) × (z.low ≤ price) × (price ≤ z.high) × IsAhead side price t
unfolding lifecycle_status
lifecycle-ready long price z t valid passed h = ground (arith, h)
lifecycle-ready short price z t valid passed h = ground (arith, h)

placed :
    (side : Side) (stop price : ℕ) (z : PriceZone)
    → IsBehind side stop z
    → z.low ≤ price
    → price ≤ z.high
    → IsShielded side stop price
placed long stop price z h a b = omega (arith, h, a)
placed short stop price z h a b = omega (arith, h, b)

empty_of : (es : List StructureError) → is_empty_list es ≡ true → es ≡ []
empty_of [] h = refl
empty_of (e ∷ es) h = absurd (false≢true h)

-- A ready scenario with an accepted structure has its price in the zone, the stop behind it and the
-- first target ahead of it.
pub ready-IsPlaced :
    (side : Side) (price : ℕ) (z : PriceZone) (stop planned : ℕ) (t : PriceZone)
    (ts : List PriceZone) (tick : ℕ) (passed : Bool)
    → lifecycle_status side price z t
        (is_empty_list (validate_price_structure side z planned stop (t ∷ ts) tick))
        passed
      ≡ ready
    → (passed ≡ true)
      × (z.low ≤ price)
      × (price ≤ z.high)
      × IsAhead side price t
      × IsShielded side stop price
ready-IsPlaced side price z stop planned t ts tick passed h =
    let a = lifecycle-ready side price z t _ passed h in
    let v = validate-IsPriceStructure side z planned stop (t ∷ ts) tick (empty_of _ a.0) in
    (a.1, a.2, a.3, a.4, placed side stop price z v.3 a.2 a.3)
