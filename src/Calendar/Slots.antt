-- ===== src/Calendar/Slots.antt =====
-- The candles to expect.
use vi_xauusd.Prelude.{
  ltb, leb, ◌==◌, Bool-cases, any, ℕ, zero, suc, ◌+◌, ◌%◌, ◌≤◌, ◌<◌, ◌≡◌, ◌↔◌, ◌⊎◌, inl, inr, Bool,
  true, false, ◌&&◌, List, [], ◌∷◌, arith,
}
use vi_xauusd.Calendar.{
  Zone, is_market_open, Intraday, m5, m15, m30, h1, h4, step_of, aligned, collect,
  expected_candle_open_times,
}

aligned_lem :
    (tf : Intraday) (t : ℕ)
    → (aligned tf t ≤ t) × (t < aligned tf t + step_of tf) × (aligned tf t % step_of tf ≡ 0)
unfolding aligned
aligned_lem m5 t = omega arith
aligned_lem m15 t = omega arith
aligned_lem m30 t = omega arith
aligned_lem h1 t = omega arith
aligned_lem h4 t = omega arith

abbrev pub contains : ℕ → List ℕ → Bool
contains x ts = any (λ t. t == x) ts

-- Each time is later than those before it, from a first one on.
abbrev pub IsAscending : ℕ → List ℕ → Type 0
IsAscending n [] = Unit
IsAscending n (t ∷ ts) = (n ≤ t) × IsAscending (t + 1) ts

IsAscending-weaken : (m n : ℕ) (ts : List ℕ) → m ≤ n → IsAscending n ts → IsAscending m ts
IsAscending-weaken m n [] le h = tt
IsAscending-weaken m n (t ∷ ts) le h = (omega (arith, h.0), h.1)

Nat-cases : (m n : ℕ) → (m ≡ n) ⊎ ((m == n) ≡ false)
Nat-cases m n = ground arith

-- The multiples of a step keep their distance.
record IsGrid (s : ℕ) : Type 0 where
  positive : 0 < s
  onward : (t : ℕ) → t % s ≡ 0 → (t + s) % s ≡ 0
  apart : (t x : ℕ) → t % s ≡ 0 → x % s ≡ 0 → t < x → t + s ≤ x

step_of-IsGrid : (tf : Intraday) → IsGrid (step_of tf)
step_of-IsGrid m5 = record {
  positive = omega arith;
  onward = λ t h. omega arith;
  apart = λ t x h k l. omega arith;
}
step_of-IsGrid m15 = record {
  positive = omega arith;
  onward = λ t h. omega arith;
  apart = λ t x h k l. omega arith;
}
step_of-IsGrid m30 = record {
  positive = omega arith;
  onward = λ t h. omega arith;
  apart = λ t x h k l. omega arith;
}
step_of-IsGrid h1 = record {
  positive = omega arith;
  onward = λ t h. omega arith;
  apart = λ t x h k l. omega arith;
}
step_of-IsGrid h4 = record {
  positive = omega arith;
  onward = λ t h. omega arith;
  apart = λ t x h k l. omega arith;
}

module _ (is_open : ℕ → Bool) (start end s : ℕ) (g : IsGrid s) where
  collect-IsAscending : (fuel t : ℕ) → IsAscending t (collect is_open start end s fuel t)
  unfolding collect
  collect-IsAscending zero t = tt
  collect-IsAscending (suc fuel) t =
      let rest = collect-IsAscending fuel (t + s) in
      let later =
        IsAscending-weaken (t + 1) (t + s) (collect is_open start end s fuel (t + s))
          (omega (arith, g.positive)) rest in
      elim (Bool-cases (ltb t end)) [
        | inl e ↦ elim (Bool-cases (leb start t && is_open t)) [
          | inl o ↦ simp (e, o) (omega arith, later)
          | inr o ↦ simp (e, o) (IsAscending-weaken t (t + 1) _ (omega arith) later)
        ]
        | inr e ↦ simp e tt
      ]

  -- With fuel for every second that is left, the loop ends by its test.
  contains-collect :
      (fuel t x : ℕ)
      → t % s ≡ 0
      → end < t + fuel
      → (contains x (collect is_open start end s fuel t) ≡ true)
        ↔ ((t ≤ x) × (start ≤ x) × (x < end) × (x % s ≡ 0) × (is_open x ≡ true))
  unfolding collect
  contains-collect zero t x m f = ground arith
  contains-collect (suc fuel) t x m f =
      let ih =
        contains-collect fuel (t + s) x (g.onward t m)
          (let p : 0 < s = g.positive in omega arith) in
      elim (Nat-cases t x) [
        | inl e ↦ rw (← e) (ground (arith, rw (← e) at ih, m, g.positive))
        | inr e ↦ ground (arith, ih, e, g.apart t x m, g.positive)
      ]

-- Whatever the span, the loop ends by its test, and the times that it lists are exactly the multiples
-- of the timeframe from the start to the end, that excluded, at which the market is open, each once
-- and in order.
pub contains-expected :
    (z : Zone) (holidays : ℕ → Bool) (start end x : ℕ) (tf : Intraday)
    → ((contains x (expected_candle_open_times z holidays start end tf) ≡ true)
        ↔ ((start ≤ x) × (x < end) × (x % step_of tf ≡ 0) × (is_market_open z holidays x ≡ true)))
      × IsAscending 0 (expected_candle_open_times z holidays start end tf)
unfolding expected_candle_open_times
contains-expected z holidays start end x tf =
    let from = aligned tf start in
    let a = aligned_lem tf start in
    let c =
      contains-collect (is_market_open z holidays) start end (step_of tf) (step_of-IsGrid tf)
        (suc end) from x a.2 (omega arith) in
    let up =
      collect-IsAscending (is_market_open z holidays) start end (step_of tf) (step_of-IsGrid tf)
        (suc end) from in
    (
      (
        λ h. let r = c.0 h in (r.1, r.2, r.3, r.4),
        λ h. c.1 (omega (arith, a.0, h.0), h.0, h.1, h.2, h.3),
      ),
      IsAscending-weaken 0 from _ (omega arith) up,
    )
