-- ===== src/Execution/Consistency/Ordered.antt =====
-- Where a decision without an error enters: its price, its zone and its levels.
use vi_xauusd.Prelude.{
  ltb, leb, if◌then◌else◌, All, ℕ, ◌≤◌, ◌<◌, ◌≡◌, refl, Bool, true, false, not, ◌&&◌, ◌||◌,
  false≢true, Option, none, some, [], arith,
}
use vi_xauusd.Execution.Permission.{not-true, append_empty, passed}
use vi_xauusd.Execution.{failed}
use vi_xauusd.Execution.Consistency.{
  Action, enter_long, enter_short, no_trade, Side, long, short, no_side, Decision, is_long,
  is_short, enters_long, enters_short, same_side, is_invalidating, is_reversal, gate_opens,
  lacks_lifecycle, both, first_target, is_outside, zone_checks, entry_checks, end_checks,
  validate_final_decision,
}

abbrev pub enter : Side → Action
enter long = enter_long
enter short = enter_short
enter no_side = no_trade

-- What holds of a price that may be left out.
abbrev pub IfGiven : Option ℕ → (ℕ → Type 0) → Type 0
IfGiven none P = Unit
IfGiven (some x) P = P x

-- The price of an entry and its zone, against the chase limit and the invalidation.
abbrev pub IsEntered : Side → ℕ → ℕ → ℕ → Option ℕ → Option ℕ → Type 0
IsEntered long l p h chase invalidation =
    IfGiven chase (λ c. p ≤ c) × IfGiven invalidation (λ i. i < l)
IsEntered short l p h chase invalidation =
    IfGiven chase (λ c. c ≤ p) × IfGiven invalidation (λ i. h < i)
IsEntered no_side l p h chase invalidation = ⊥

-- The side of the action and the direction of the decision: the zone is only laid out where there is
-- a direction.
abbrev pub IsFacing : Side → Side → ℕ → ℕ → Option ℕ → Option ℕ → Type 0
IsFacing long long l h chase target = IfGiven chase (λ c. h ≤ c) × IfGiven target (λ t. h < t)
IsFacing short short l h chase target = IfGiven chase (λ c. c ≤ l) × IfGiven target (λ t. t < l)
IsFacing long short l h chase target = ⊥
IsFacing short long l h chase target = ⊥
IsFacing _ _ l h chase target = Unit

zone_passed :
    (d : Decision) → validate_final_decision d ≡ [] → All (λ c. c.0 ≡ true) (zone_checks d)
unfolding validate_final_decision
zone_passed d h = passed (zone_checks d) (append_empty (failed (zone_checks d)) _ h).0

entry_passed :
    (d : Decision)
    → validate_final_decision d ≡ []
    → (enters_long d.final_action || enters_short d.final_action) ≡ true
    → All (λ c. c.0 ≡ true) (entry_checks d)
unfolding validate_final_decision
entry_passed d h e =
    let rest = (append_empty (failed (zone_checks d)) _ h).1 in
    passed (entry_checks d) (
      rw e at
        (append_empty
          (if enters_long d.final_action || enters_short d.final_action
            then failed (entry_checks d)
            else [])
          _ rest).0)

end_passed : (d : Decision) → validate_final_decision d ≡ [] → All (λ c. c.0 ≡ true) (end_checks d)
unfolding validate_final_decision
end_passed d h =
    let rest = (append_empty (failed (zone_checks d)) _ h).1 in
    passed (end_checks d)
      (append_empty
        (if enters_long d.final_action || enters_short d.final_action
          then failed (entry_checks d)
          else [])
        _ rest).1

le_of : (a b : ℕ) → not (ltb b a) ≡ true → a ≤ b
le_of a b h = ground (arith, h)

lt_of : (a b : ℕ) → not (leb b a) ≡ true → a < b
lt_of a b h = ground (arith, h)

within : (l p h : ℕ) → not (not (leb l p && leb p h)) ≡ true → (l ≤ p) × (p ≤ h)
within l p h e = ground (arith, e)

if_given :
    (o : Option ℕ) (a : ℕ) (test : ℕ → ℕ → Bool) (P : ℕ → Type 0)
    → ((x : ℕ) → not (test a x) ≡ true → P x)
    → not (both (some a) o test) ≡ true
    → IfGiven o P
if_given none a test P f h = tt
if_given (some x) a test P f h = f x h

given_if :
    (o : Option ℕ) (a : ℕ) (test : ℕ → ℕ → Bool) (P : ℕ → Type 0)
    → ((x : ℕ) → not (test x a) ≡ true → P x)
    → not (both o (some a) test) ≡ true
    → IfGiven o P
given_if none a test P f h = tt
given_if (some x) a test P f h = f x h

-- The zone and the price are there, and the price is in the zone.
abbrev pub IsInside : Option ℕ → Option ℕ → Option ℕ → ℕ → ℕ → ℕ → Type 0
IsInside low current high l p h =
    (low ≡ some l) × (current ≡ some p) × (high ≡ some h) × (l ≤ p) × (p ≤ h)

IsInside-of :
    (low high current : Option ℕ)
    → not (is_outside low high current) ≡ true
    → (l : ℕ) × (p : ℕ) × (h : ℕ) × IsInside low current high l p h
IsInside-of none high current e = absurd (false≢true e)
IsInside-of (some l) none current e = absurd (false≢true e)
IsInside-of (some l) (some h) none e = absurd (false≢true e)
IsInside-of (some l) (some h) (some p) e =
    let w = within l p h e in (l, p, h, (refl, refl, refl, w.0, w.1))

entered :
    (d : Decision) (side : Side) (l p h : ℕ)
    → (is_long side || is_short side) ≡ true
    → d.final_action ≡ enter side
    → IsInside d.low d.current d.high l p h
    → All (λ c. c.0 ≡ true) (entry_checks d)
    → IsEntered side l p h d.chase d.invalidation
entered d no_side l p h s act w e = absurd (false≢true s)
entered d long l p h s act (el, ep, eh, _, _) e = (
  given_if d.chase p (λ c q. ltb c q) (λ c. p ≤ c) (λ c. le_of p c)
      (rw ep at (rw act at e.1.1.1.1.0)),
  given_if d.invalidation l (λ i m. leb m i) (λ i. i < l) (λ i. lt_of i l)
      (rw el at (rw act at e.1.1.1.1.1.1.0)),
)
entered d short l p h s act (el, ep, eh, _, _) e = (
  given_if d.chase p (λ c q. ltb q c) (λ c. c ≤ p) (λ c. le_of c p)
      (rw ep at (rw act at e.1.1.1.1.1.0)),
  given_if d.invalidation h (λ i m. leb i m) (λ i. h < i) (λ i. lt_of h i)
      (rw eh at (rw act at e.1.1.1.1.1.1.1.0)),
)

facing :
    (d : Decision) (side facing_side : Side) (l p h : ℕ)
    → (is_long side || is_short side) ≡ true
    → d.final_action ≡ enter side
    → d.direction ≡ facing_side
    → IsInside d.low d.current d.high l p h
    → All (λ c. c.0 ≡ true) (zone_checks d)
    → All (λ c. c.0 ≡ true) (end_checks d)
    → IsFacing side facing_side l h d.chase (first_target d.targets)
facing d no_side dir l p h s act e w z f = absurd (false≢true s)
facing d long no_side l p h s act e w z f = tt
facing d short no_side l p h s act e w z f = tt
facing d long short l p h s act e w z f = false≢true (rw act at (rw e at f.1.0))
facing d short long l p h s act e w z f = false≢true (rw act at (rw e at f.1.0))
facing d long long l p h s act e (el, ep, eh, _, _) z f = (
  if_given d.chase h (λ m c. ltb c m) (λ c. h ≤ c) (λ c. le_of h c) (rw eh at (rw e at z.1.0)),
  if_given (first_target d.targets) h (λ m t. leb t m) (λ t. h < t) (λ t. lt_of h t)
      (rw eh at (rw e at z.1.1.1.0)),
)
facing d short short l p h s act e (el, ep, eh, _, _) z f = (
  if_given d.chase l (λ m c. ltb m c) (λ c. c ≤ l) (λ c. le_of c l) (rw el at (rw e at z.1.1.0)),
  if_given (first_target d.targets) l (λ m t. leb m t) (λ t. t < l) (λ t. lt_of t l)
      (rw el at (rw e at z.1.1.1.1.0)),
)

enters :
    (side : Side)
    → (is_long side || is_short side) ≡ true
    → (enters_long (enter side) || enters_short (enter side)) ≡ true
enters long s = refl
enters short s = refl
enters no_side s = absurd (false≢true s)

-- A decision that enters long or short and has no error has a zone with the price in it, and the
-- price is not past the chase limit, nor the zone past the invalidation, where these are given. The
-- direction is that of the action, and then the zone is short of the chase limit and of the first
-- target, where these are given; or the decision has no direction, and then the zone is not compared
-- with them. No live bias is suspended or reversing on the side of the direction, there is an
-- execution bias, the risk gate is open and the lifecycle fits it.
pub validate-IsEntered :
    (d : Decision) (side : Side)
    → validate_final_decision d ≡ []
    → (is_long side || is_short side) ≡ true
    → d.final_action ≡ enter side
    → (l : ℕ) × (p : ℕ) × (h : ℕ) × IsInside d.low d.current d.high l p h
      × IsEntered side l p h d.chase d.invalidation
      × IsFacing side d.direction l h d.chase (first_target d.targets)
      × (is_invalidating d.live_state ≡ false)
      × ((same_side d.direction d.structural_side && is_reversal d.live_state) ≡ false)
      × (d.has_execution_bias ≡ true)
      × (gate_opens d.risk_gate ≡ true)
      × (lacks_lifecycle d.risk_gate d.lifecycle ≡ false)
validate-IsEntered d side v s act =
    let z = zone_passed d v in
    let e = entry_passed d v (rw act (enters side s)) in
    let (l, p, h, w) = IsInside-of d.low d.high d.current e.1.1.1.0 in
    (
      l,
      p,
      h,
      w,
      entered d side l p h s act w e,
      facing d side d.direction l p h s act refl w z (end_passed d v),
      not-true _ e.0,
      not-true _ e.1.1.0,
      e.1.0,
      e.1.1.1.1.1.1.1.1.0,
      not-true _ e.1.1.1.1.1.1.1.1.1.0,
    )
