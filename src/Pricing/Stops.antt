-- ===== src/Pricing/Stops.antt =====
-- The stop that is selected.
use vi_xauusd.Prelude.{
  ltb, if◌then◌else◌, or_option, Bool-cases, filter, All, ℕ, ◌≤◌, ◌≡◌, refl, inl, inr, Bool, true,
  false, Option, none, some, List, [], ◌∷◌, arith,
}
use vi_xauusd.Prelude.Rounding.{distance}
use vi_xauusd.Positions.{Side}
use vi_xauusd.Execution.Permission.{}
use vi_xauusd.Pricing.{
  PriceZone, Frame, min15, hour1, hour4, Level, StructuralStop, boundary_of, is_candidate, nearest,
  stop_in, select_structural_stop,
}
use mathlib.Core.Path.{subst}

-- No level of the list is nearer.
abbrev pub IsNearest : ℕ → Level → List Level → Type 0
IsNearest b best ls = All (λ l. distance best.mid b ≤ distance l.mid b) ls

nearest_le :
    (b : ℕ) (best : Level) (ls : List Level)
    → (distance (nearest b best ls).mid b ≤ distance best.mid b)
      × IsNearest b (nearest b best ls) ls
nearest_le b best [] = (omega arith, tt)
nearest_le b best (l ∷ ls) =
    step (ltb (distance l.mid b) (distance best.mid b)) refl (nearest_le b l ls)
      (nearest_le b best ls)
  where
    closer : (x y z : ℕ) → x ≤ y → ltb y z ≡ true → x ≤ z
    closer x y z h e = ground arith

    kept : (x y z : ℕ) → x ≤ y → ltb z y ≡ false → x ≤ z
    kept x y z h e = ground arith

    step :
        (c : Bool)
        → ltb (distance l.mid b) (distance best.mid b) ≡ c
        → (distance (nearest b l ls).mid b ≤ distance l.mid b) × IsNearest b (nearest b l ls) ls
        → (distance (nearest b best ls).mid b ≤ distance best.mid b)
          × IsNearest b (nearest b best ls) ls
        → let n = nearest b (if c then l else best) ls in
          (distance n.mid b ≤ distance best.mid b) × IsNearest b n (l ∷ ls)
    step true e r k = (closer _ _ _ r.0 e, (r.0, r.1))
    step false e k r = (r.0, (kept _ _ _ r.0 e, r.1))

nearest_among :
    (P : Level → Type 0) (b : ℕ) (best : Level) (ls : List Level)
    → P best
    → All P ls
    → P (nearest b best ls)
nearest_among P b best [] h hs = h
nearest_among P b best (l ∷ ls) h hs =
    elim (Bool-cases (ltb (distance l.mid b) (distance best.mid b))) [
      | inl e ↦ rw e (nearest_among P b l ls hs.0 hs.1)
      | inr e ↦ rw e (nearest_among P b best ls h hs.1)
    ]

filter-All : (p : Level → Bool) (ls : List Level) → All (λ l. p l ≡ true) (filter p ls)
filter-All p [] = tt
filter-All p (l ∷ ls) = elim (Bool-cases (p l)) [
  | inl e ↦ rw e (e, filter-All p ls)
  | inr e ↦ rw e (filter-All p ls)
]

-- A level of the stop's frame beyond the zone, of which no other of the list is nearer to the zone.
abbrev pub IsStop : Side → PriceZone → List Level → StructuralStop → Type 0
IsStop side z levels s =
    (is_candidate side z s.timeframe s.level ≡ true)
    × IsNearest (boundary_of side z) s.level (filter (is_candidate side z s.timeframe) levels)

abbrev pub IsChosen : Side → PriceZone → List Level → Option StructuralStop → Type 0
IsChosen side z levels none = Unit
IsChosen side z levels (some s) = IsStop side z levels s

stop_in-IsStop :
    (side : Side) (z : PriceZone) (frame : Frame) (levels ls : List Level)
    → ls ≡ filter (is_candidate side z frame) levels
    → All (λ l. is_candidate side z frame l ≡ true) ls
    → IsChosen side z levels (stop_in side z frame ls)
stop_in-IsStop side z frame levels [] e h = tt
stop_in-IsStop side z frame levels (l ∷ ls) e h =
    let b = boundary_of side z in
    let r = nearest_le b l ls in
    (
      nearest_among (λ x. is_candidate side z frame x ≡ true) b l ls h.0 h.1,
      subst (λ xs. IsNearest b (nearest b l ls) xs) e (r.0, r.1),
    )

or_option-IsChosen :
    (side : Side) (z : PriceZone) (levels : List Level) (a b : Option StructuralStop)
    → IsChosen side z levels a
    → IsChosen side z levels b
    → IsChosen side z levels (or_option a b)
or_option-IsChosen side z levels none b h k = k
or_option-IsChosen side z levels (some x) b h k = h

-- The selected stop is a confirmed swing of its frame, strictly beyond the entry zone, and no swing of
-- the same frame beyond the zone is nearer to it.
pub select-IsChosen :
    (side : Side) (z : PriceZone) (levels : List Level)
    → IsChosen side z levels (select_structural_stop side z levels)
unfolding select_structural_stop
select-IsChosen side z levels =
    let of : (frame : Frame)
        → IsChosen side z levels
            (stop_in side z frame (filter (is_candidate side z frame) levels)) =
      λ frame.
        stop_in-IsStop side z frame levels (filter (is_candidate side z frame) levels) refl
          (filter-All (is_candidate side z frame) levels) in
    or_option-IsChosen side z levels _ _ (of min15)
      (or_option-IsChosen side z levels _ _ (of hour1) (of hour4))
