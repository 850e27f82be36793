-- ===== src/Gate/Safe.antt =====
-- What a tier that may be entered promises.
use vi_xauusd.Prelude.{
  leb, if◌then◌else◌, and_some, Bool-cases, ℕ, ◌≤◌, min, max, ◌≡◌, inl, inr, Bool, true, false, not,
  ◌&&◌, ◌||◌, false≢true, some, arith, str_eq,
}
use vi_xauusd.Execution.{is_empty_list}
use vi_xauusd.Execution.Permission.{not-true, failed-All}
use vi_xauusd.Gate.{
  same_side, is_suspended, has_expired, Stage, DistanceState, State, blocked, watch, probe_ready,
  entry_ready, GateSettings, Candidate, Situation, is_chasing, distance_state, is_broken, is_over,
  stop_valid, is_ready, hard_checks, hard_blocks, score_of, is_confirmed, is_good, is_in_zone,
  state_of,
}

abbrev pub is_open_tier : State → Bool
is_open_tier entry_ready = true
is_open_tier probe_ready = true
is_open_tier _ = false

-- The tests of `state_of`, one after another.
open_tier :
    (is_free wants_full wants_probe : Bool) (st : Stage) (d : DistanceState)
    → is_open_tier (
        if not is_free
        then blocked
        else if wants_full && is_ready st && is_good d
        then entry_ready
        else if wants_probe && is_confirmed st && is_in_zone d
        then probe_ready
        else watch)
      ≡ true
    → (is_free ≡ true) × (is_confirmed st ≡ true) × (is_in_zone d ≡ true)
open_tier is_free wants_full wants_probe st d h = ground (arith, h)

in_zone_between :
    (c : Candidate) (price a b : ℕ)
    → is_in_zone (distance_state c price (some (a, b))) ≡ true
    → (min a b ≤ price) × (price ≤ max a b)
unfolding distance_state
in_zone_between c price a b h = elim (Bool-cases (leb (min a b) price && leb price (max a b))) [
  | inl e ↦ ground (arith, e)
  | inr e ↦ elim (Bool-cases (is_chasing c (min a b) (max a b) price)) [
    | inl f ↦ absurd (false≢true (simp (e, f) at h))
    | inr f ↦ absurd (false≢true (simp (e, f) at h))
  ]
]

none_of_four :
    (a b c e : Bool)
    → not (a || b || c || e) ≡ true
    → (a ≡ false) × (b ≡ false) × (c ≡ false) × (e ≡ false)
none_of_four a b c e h = ground (arith, h)

-- A candidate whose tier may be entered, in full or as a probe, has no hard block: live data and
-- market, no event, spread or position in the way, no live bias that turns against its side, a stage
-- that is not over, no expiry that is reached at the time of the evaluation, or now where that is not
-- given, a scenario neither invalidated nor stale, a stop on its side of the price and at least the
-- absolute minimum of the ratio; it is confirmed, on a closed candle where it is ready, and the price
-- stands in its zone.
pub state-open :
    (g : GateSettings) (c : Candidate) (s : Situation) (a b : ℕ)
    → is_open_tier (state_of g c s) ≡ true
    → c.zone ≡ some (a, b)
    → ((is_broken s.data_health ≡ false)
        × (s.has_desync ≡ false)
        × (s.is_closed ≡ false)
        × (s.is_blackout ≡ false)
        × (s.has_wide_spread ≡ false)
        × (s.has_position ≡ false))
      × ((and_some s.structural_side (λ side. same_side c.direction side)
            && is_suspended s.live_bias_state)
          ≡ false)
      × ((is_over c.stage ≡ false)
          × (has_expired c.expires_at s.evaluated_at s.clock ≡ false)
          × (str_eq s.scenario_validity "INVALIDATED" ≡ false)
          × (str_eq s.scenario_validity "STALE" ≡ false))
      × (stop_valid c.direction s.current_price c.stop ≡ true)
      × (and_some c.risk_reward (λ rr. leb g.absolute_min_rr rr) ≡ true)
      × (is_confirmed c.stage ≡ true)
      × ((not (is_ready c.stage) || s.closed_candle_available) ≡ true)
      × (min a b ≤ s.current_price)
      × (s.current_price ≤ max a b)
unfolding state_of hard_blocks hard_checks
state-open g c s a b h z =
    let t =
      open_tier (is_empty_list (hard_blocks g c s)) (leb g.full_score (score_of g c s))
        (leb g.probe_score (score_of g c s)) c.stage (distance_state c s.current_price c.zone) h in
    let p = failed-All (hard_checks g c s) t.0 in
    let inside = in_zone_between c s.current_price a b (rw z at t.2) in
    (
      (
        not-true _ p.0,
        not-true _ p.1.0,
        not-true _ p.1.1.0,
        not-true _ p.1.1.1.0,
        not-true _ p.1.1.1.1.0,
        not-true _ p.1.1.1.1.1.0,
      ),
      not-true _ p.1.1.1.1.1.1.0,
      none_of_four (is_over c.stage) (has_expired c.expires_at s.evaluated_at s.clock)
          (str_eq s.scenario_validity "INVALIDATED") (str_eq s.scenario_validity "STALE")
          p.1.1.1.1.1.1.1.0,
      p.1.1.1.1.1.1.1.1.0,
      p.1.1.1.1.1.1.1.1.1.0,
      t.1,
      p.1.1.1.1.1.1.1.1.1.1.1.0,
      inside.0,
      inside.1,
    )
