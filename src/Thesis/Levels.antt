-- ===== src/Thesis/Levels.antt =====
-- The levels that a thesis is built with.
use vi_xauusd.Prelude.Rounding.{distance, round_ratio}
use vi_xauusd.Prelude.{
  if◌then◌else◌, Bool-cases, ℕ, ◌*◌, ◌≤◌, ◌<◌, ◌≡◌, refl, inl, inr, true, false, ◌&&◌, Option, none,
  some, arith,
}
use vi_xauusd.Positions.{Side, long, short}
use vi_xauusd.Thesis.{
  EntryPlan, Thesis, worse, is_better, hard_of, derived_warning, warning_of, emergency_of,
  build_trade_thesis,
}

-- `w` lies between the entry `e` and the hard level `h`, and may be the entry.
abbrev pub IsBetween : Side → ℕ → ℕ → ℕ → Type 0
IsBetween long e w h = (h < w) × (w ≤ e)
IsBetween short e w h = (w < h) × (e ≤ w)

abbrev pub IsBeyond : Side → ℕ → ℕ → Type 0
IsBeyond long x h = x ≤ h
IsBeyond short x h = h ≤ x

-- From the entry outwards: the warning, the hard level and the emergency stop.
abbrev pub IsLaidOut : Thesis → Type 0
IsLaidOut t =
    IsBetween t.direction t.reference_entry t.warning t.hard
    × IsBeyond t.direction t.emergency_stop t.hard
    × (0 < t.max_bars)

derived_lem :
    (s : Side) (e h : ℕ)
    → is_better s e h ≡ true
    → IsBetween s e (round_ratio (worse s (100 * e) (35 * distance e h)) 100) h
unfolding round_ratio
derived_lem long e h b = ground arith
derived_lem short e h b = ground arith

between : (s : Side) (e w h : ℕ) → (is_better s e w && is_better s w h) ≡ true → IsBetween s e w h
between long e w h b = ground arith
between short e w h b = ground arith

beyond : (s : Side) (h x : ℕ) → IsBeyond s (round_ratio (worse s (100 * h) x) 100) h
unfolding round_ratio
beyond long h x = ground arith
beyond short h x = ground arith

warning_of-IsBetween :
    (p : EntryPlan)
    → is_better p.direction p.suggested_entry (hard_of p) ≡ true
    → IsBetween p.direction p.suggested_entry (warning_of p) (hard_of p)
unfolding warning_of
warning_of-IsBetween p b = chosen p.warning_level
  where
    derived : ℕ
    derived = round_ratio (derived_warning p) 100

    chosen :
        (o : Option ℕ)
        → IsBetween p.direction p.suggested_entry
            (elim o [
              | none ↦ derived
              | some w ↦
                  if is_better p.direction p.suggested_entry w
                    && is_better p.direction w (hard_of p)
                  then w
                  else derived
            ])
            (hard_of p)
    chosen none = derived_lem p.direction p.suggested_entry (hard_of p) b
    chosen (some w) =
        elim (Bool-cases
          (is_better p.direction p.suggested_entry w && is_better p.direction w (hard_of p))) [
            | inl y ↦ rw y (between p.direction p.suggested_entry w (hard_of p) y)
            | inr n ↦ rw n (derived_lem p.direction p.suggested_entry (hard_of p) b)
          ]

-- What a plan is built into.
abbrev pub IsBuilt : EntryPlan → Option Thesis → Type 0
IsBuilt p none = is_better p.direction p.suggested_entry (hard_of p) ≡ false
IsBuilt p (some t) =
    (is_better p.direction p.suggested_entry (hard_of p) ≡ true)
    × (t.direction ≡ p.direction)
    × (t.hard ≡ hard_of p)
    × IsLaidOut t

-- A thesis is built exactly for a hard level on the adverse side of the entry. Its warning then lies
-- strictly before the hard level and not beyond the entry, even where the plan's own warning does not,
-- the emergency stop lies at the hard level or beyond it, and the window has at least one bar.
pub build-IsLaidOut : (p : EntryPlan) → IsBuilt p (build_trade_thesis p)
unfolding build_trade_thesis emergency_of
build-IsLaidOut p = elim (Bool-cases (is_better p.direction p.suggested_entry (hard_of p))) [
  | inl b ↦
      rw b
        (b, refl, refl, (warning_of-IsBetween p b, beyond p.direction (hard_of p) _, ground arith))
  | inr n ↦ rw n n
]
