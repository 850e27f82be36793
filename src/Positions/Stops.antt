-- ===== src/Positions/Stops.antt =====
-- A stop is only ever tightened, and R is measured by the first one.
use vi_xauusd.Prelude.{
  ltb, leb, ◌==◌, if◌then◌else◌, is_some, or_option, and_some, Bool-cases, ℕ, ◌≤◌, ◌≡◌, refl, ◌∙◌,
  inl, inr, true, false, not, ◌||◌, Option, none, some, List, [], ◌∷◌, ◌++◌, arith,
}
use vi_xauusd.Prelude.Int.{ℤ}
use vi_xauusd.Positions.{
  Side, long, short, StopChange, Position, Error, Outcome, is_zero, loosens, validate_stop_update,
  apply_stop, modify_stop, first_stop, initial_stop, r_multiple, exited, whole, remaining,
  partial_exit, close_position, update_position_context, Request, modifies, exits_part, closes,
  updates, after, step, run,
}

first_stop-append :
    (cs : List StopChange) (c : StopChange) (stop : Option ℕ)
    → first_stop (cs ++ c ∷ []) stop ≡ first_stop cs (or_option c.old_stop stop)
unfolding first_stop
first_stop-append [] c stop = refl
first_stop-append (d ∷ cs) c stop = rw (first_stop-append cs c stop)

-- The new stop is at least as tight.
abbrev pub IsTightened : Side → Option ℕ → Option ℕ → Type 0
IsTightened side none new = Unit
IsTightened side (some o) none = ⊥
IsTightened long (some o) (some n) = o ≤ n
IsTightened short (some o) (some n) = n ≤ o

abbrev pub HasStop : Position → Type 0
HasStop p = is_some p.stop_loss ≡ true

-- What a request keeps of the stop.
pub record IsKept (p q : Position) : Type 0 where
  pub same_side : q.side ≡ p.side
  pub same_entry : q.entry_price ≡ p.entry_price
  pub tightened : IsTightened p.side p.stop_loss q.stop_loss
  pub same_initial : HasStop p → initial_stop q ≡ initial_stop p

abbrev IsKeptBy : Position → Outcome → Type 0
IsKeptBy p o = IsKept p (after p o)

unchanged : (side : Side) (o : Option ℕ) → IsTightened side o o
unchanged side none = tt
unchanged long (some n) = omega arith
unchanged short (some n) = omega arith

stays :
    (p q : Position)
    → q.side ≡ p.side
    → q.entry_price ≡ p.entry_price
    → q.stop_loss ≡ p.stop_loss
    → q.stop_changes ≡ p.stop_changes
    → IsKept p q
unfolding initial_stop
stays p q s e l c = record {
  same_side = s;
  same_entry = e;
  tightened = rw l (unchanged p.side p.stop_loss);
  same_initial = λ h. rw (l, c);
}

tighter :
    (side : Side) (old : Option ℕ) (new : ℕ)
    → validate_stop_update side old new ≡ none
    → IsTightened side old (some new)
unfolding validate_stop_update
tighter side none new h = tt
tighter long (some o) new h = ground arith
tighter short (some o) new h = ground arith

initial_stop-change :
    (old : Option ℕ) (cs : List StopChange) (c : StopChange) (new : Option ℕ)
    → c.old_stop ≡ old
    → is_some old ≡ true
    → first_stop (cs ++ c ∷ []) new ≡ first_stop cs old
unfolding first_stop
initial_stop-change none cs c new e h = absurd (ground arith)
initial_stop-change (some o) cs c new e h = first_stop-append cs c new ∙ rw e refl

apply_stop-IsKept :
    (p : Position) (new : ℕ) (o : Option Error)
    → validate_stop_update p.side p.stop_loss new ≡ o
    → IsKeptBy p (apply_stop p new o)
unfolding apply_stop initial_stop
apply_stop-IsKept p new (some e) h = stays p p refl refl refl refl
apply_stop-IsKept p new none h = record {
  same_side = refl;
  same_entry = refl;
  tightened = tighter p.side p.stop_loss new h;
  same_initial =
      initial_stop-change p.stop_loss p.stop_changes
        (record {
          old_stop = p.stop_loss;
          new_stop = new;
          widening = and_some p.stop_loss (λ o. loosens p.side o new);
        })
        (some new) refl;
}

partial_exit-IsKept :
    (round : ℤ → ℕ → ℤ) (now : ℕ) (p : Position) (percent price : ℕ)
    → IsKeptBy p (partial_exit round now (some p) percent price)
unfolding partial_exit
partial_exit-IsKept round now p percent price =
    elim (Bool-cases (percent == 0 || ltb whole percent)) [
      | inl a ↦ rw a (stays p p refl refl refl refl)
      | inr a ↦ elim (Bool-cases (not p.is_open)) [
        | inl b ↦ simp (a, b) (stays p p refl refl refl refl)
        | inr b ↦
            let hist =
              p.exits
              ++ record {
                percent = percent;
                exit_price = price;
                r_at_exit = r_multiple round p price;
              }
                ∷ [] in
            elim (Bool-cases (leb whole (exited hist))) [
              | inl c ↦
                  simp (a, b, c)
                    (stays p (record p { exits = hist; is_open = false; close_time = some now })
                      refl refl refl refl)
              | inr c ↦ simp (a, b, c) (stays p (record p { exits = hist }) refl refl refl refl)
            ]
      ]
    ]

step-IsKept : (round : ℤ → ℕ → ℤ) (p : Position) (r : ℕ × Request) → IsKept p (step round p r)
unfolding step modify_stop close_position update_position_context
step-IsKept round p (now, modifies new) = elim (Bool-cases p.is_open) [
  | inl a ↦ simp a (apply_stop-IsKept p new (validate_stop_update p.side p.stop_loss new) refl)
  | inr a ↦ simp a (stays p p refl refl refl refl)
]
step-IsKept round p (now, exits_part percent price) = partial_exit-IsKept round now p percent price
step-IsKept round p (now, closes price) = elim (Bool-cases (not p.is_open)) [
  | inl a ↦ simp a (stays p p refl refl refl refl)
  | inr a ↦
      simp a
        (partial_exit-IsKept round now p (if remaining p == 0 then whole else remaining p) price)
]
step-IsKept round p (now, updates t s l h) = elim (Bool-cases (is_zero l)) [
  | inl a ↦ simp a (stays p p refl refl refl refl)
  | inr a ↦ elim (Bool-cases (not p.is_open)) [
    | inl b ↦ simp (a, b) (stays p p refl refl refl refl)
    | inr b ↦
        simp (a, b)
          (stays p (record p { timeframe = t; thesis = s; max_loss_usd = l; allow_event_hold = h })
            refl refl refl refl)
  ]
]

IsTightened-trans :
    (side : Side) (a b c : Option ℕ)
    → IsTightened side a b
    → IsTightened side b c
    → IsTightened side a c
IsTightened-trans side none b c h k = tt
IsTightened-trans side (some a) none c h k = absurd h
IsTightened-trans side (some a) (some b) none h k = absurd k
IsTightened-trans long (some a) (some b) (some c) h k = omega arith
IsTightened-trans short (some a) (some b) (some c) h k = omega arith

tightened-HasStop :
    (side : Side) (a b : Option ℕ) → IsTightened side a b → is_some a ≡ true → is_some b ≡ true
tightened-HasStop side none b h k = absurd (ground arith)
tightened-HasStop side (some a) none h k = absurd h
tightened-HasStop side (some a) (some b) h k = refl

IsKept-trans : (p q r : Position) → IsKept p q → IsKept q r → IsKept p r
IsKept-trans p q r h k = record {
  same_side = k.same_side ∙ h.same_side;
  same_entry = k.same_entry ∙ h.same_entry;
  tightened =
      IsTightened-trans p.side p.stop_loss q.stop_loss r.stop_loss h.tightened
        (rw h.same_side at k.tightened);
  same_initial = λ s.
      k.same_initial (tightened-HasStop p.side p.stop_loss q.stop_loss h.tightened s)
      ∙ h.same_initial s;
}

-- Over any sequence of requests, accepted or refused, a position keeps its side and its entry price,
-- its stop is never loosened or removed, and once it has a stop, the first stop that R is measured by
-- stays the same.
pub run-IsKept :
    (round : ℤ → ℕ → ℤ) (rs : List (ℕ × Request)) (p : Position) → IsKept p (run round p rs)
unfolding run
run-IsKept round [] p = stays p p refl refl refl refl
run-IsKept round (r ∷ rs) p =
    IsKept-trans p (step round p r) (run round (step round p r) rs) (step-IsKept round p r)
      (run-IsKept round rs (step round p r))
