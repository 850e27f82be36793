-- ===== src/Positions/Exits.antt =====
-- How much of a position is left.
use vi_xauusd.Prelude.{
  ltb, leb, ◌==◌, is_some, Bool-cases, ℕ, ◌+◌, ◌-◌, ◌≤◌, ◌<◌, ◌≡◌, refl, ◌↔◌, inl, inr, true, false,
  ◌||◌, some, List, [], ◌∷◌, ◌++◌, arith,
}
use vi_xauusd.Prelude.Int.{ℤ}
use vi_xauusd.Positions.{
  Exit, Position, saved, r_multiple, exited, whole, remaining, partial_exit, close_position,
}

exited-append : (xs : List Exit) (x : Exit) → exited (xs ++ x ∷ []) ≡ exited xs + x.percent
unfolding exited
exited-append [] x = omega arith
exited-append (y ∷ xs) x = omega (arith, exited-append xs x)

-- A position is open as long as less than the whole has been sold, and a closed one has its time.
pub record IsAccounted (p : Position) : Type 0 where
  pub open_rest : p.is_open ≡ true → exited p.exits < whole
  pub closed_rest : p.is_open ≡ false → whole ≤ exited p.exits
  pub closed_time : p.is_open ≡ false → is_some p.close_time ≡ true

-- A valid partial exit of an open position is recorded last, and closes it exactly if now the whole
-- has been sold; the position stays accounted for.
pub partial_exit-IsAccounted :
    (round : ℤ → ℕ → ℤ) (now : ℕ) (p : Position) (percent price : ℕ)
    → IsAccounted p
    → p.is_open ≡ true
    → 0 < percent
    → percent ≤ whole
    → (q : Position) × (partial_exit round now (some p) percent price ≡ saved q)
      × (exited q.exits ≡ exited p.exits + percent)
      × ((q.is_open ≡ false) ↔ (remaining p ≤ percent))
      × IsAccounted q
unfolding partial_exit remaining
partial_exit-IsAccounted round now p percent price v o lo hi =
    let x : Exit = record {
      percent = percent;
      exit_price = price;
      r_at_exit = r_multiple round p price;
    } in
    let sum = exited-append p.exits x in
    let valid : (percent == 0 || ltb whole percent) ≡ false = ground arith in
    elim (Bool-cases (leb whole (exited (p.exits ++ x ∷ [])))) [
      | inl c ↦ (
        record p { exits = p.exits ++ x ∷ []; is_open = false; close_time = some now },
        simp (valid, o, c),
        sum,
        (λ h. ground (arith, sum, c), λ h. refl),
        record {
          open_rest = λ h. absurd (ground arith);
          closed_rest = λ h. ground (arith, c);
          closed_time = λ h. refl;
        },
      )
      | inr c ↦ (
        record p { exits = p.exits ++ x ∷ [] },
        simp (valid, o, c),
        sum,
        (λ h. absurd (ground (arith, o)), λ h. absurd (ground (arith, sum, c))),
        record {
          open_rest = λ h. ground (arith, c);
          closed_rest = λ h. absurd (ground (arith, o));
          closed_time = λ h. absurd (ground (arith, o));
        },
      )
    ]

-- Closing an open position sells exactly what is left.
pub close_position-whole :
    (round : ℤ → ℕ → ℤ) (now : ℕ) (p : Position) (price : ℕ)
    → IsAccounted p
    → p.is_open ≡ true
    → (q : Position) × (close_position round now (some p) price ≡ saved q)
      × (q.is_open ≡ false)
      × (is_some q.close_time ≡ true)
      × (exited q.exits ≡ whole)
      × (remaining q ≡ 0)
unfolding close_position remaining
close_position-whole round now p price v o =
    let (q, done, sold, ended, kept) =
      partial_exit-IsAccounted round now p (whole - exited p.exits) price v o
        (omega (arith, v.open_rest o)) (omega arith) in
    let some_left : (whole - exited p.exits == 0) ≡ false = ground (arith, v.open_rest o) in
    (
      q,
      simp (o, some_left) done,
      ended.1 (omega arith),
      kept.closed_time (ended.1 (omega arith)),
      omega (arith, sold, v.open_rest o),
      omega (arith, sold, v.open_rest o),
    )
