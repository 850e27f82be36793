-- ===== src/Delivery/Safety.antt =====
-- What an entry that passes the check promises.
use vi_xauusd.Prelude.{
  ltb, leb, ◌==◌, if◌then◌else◌, or_else, and_some, Bool-cases, any, All, ℕ, ◌-◌, ◌≤◌, ◌<◌, ◌≡◌,
  refl, sym, ap, ◌∙◌, inl, inr, Bool, true, false, not, ◌&&◌, false≢true, Option, none, some, List,
  [], ◌∷◌, ◌++◌, arith,
}
use vi_xauusd.Prelude.Rounding.{}
use vi_xauusd.Execution.Permission.{or_false, not-false, text_of}
use vi_xauusd.Positions.{Side, long, short}
use vi_xauusd.Pricing.{}
use vi_xauusd.Delivery.{
  Action, enter, other_action, Settings, Payload, CurrentRow, Queued, Tick, Market, Reason, pass,
  is_enter, queue_ttl, is_recent, side_price, Plan, plan_of, required_rr, effective_rr,
  price_checks, age_checks, ratio_checks, candle_checks, first_failed, plan_checks, entry_reason,
  is_pass, is_superseded, check_entry, check_row, validate_pre_delivery,
}

-- The prices of a plan, in the order in which they have to be.
abbrev pub IsExecutablePlan : Side → Plan → Type 0
IsExecutablePlan long p =
    (p.low ≤ p.price)
    × (p.price ≤ p.high)
    × (p.price ≤ p.chase)
    × (p.stop < p.price)
    × (p.price < p.target)
IsExecutablePlan short p =
    (p.low ≤ p.price)
    × (p.price ≤ p.high)
    × (p.chase ≤ p.price)
    × (p.price < p.stop)
    × (p.target < p.price)

no_pass :
    (r : Reason) (b : Bool)
    → (if is_pass r then true else b) ≡ false
    → (is_pass r ≡ false) × (b ≡ false)
no_pass r b h = ground (arith, h)

checked_append :
    (xs ys : List (Bool × Reason))
    → first_failed (xs ++ ys) ≡ pass
    → any (λ c. is_pass c.1) xs ≡ false
    → All (λ c. c.0 ≡ true) xs × (first_failed ys ≡ pass)
checked_append [] ys h n = (tt, h)
checked_append ((ok, r) ∷ xs) ys h n =
    step ok r h (no_pass r (any (λ c. is_pass c.1) xs) n)
      (λ h'. checked_append xs ys h' (no_pass r (any (λ c. is_pass c.1) xs) n).1)
  where
    step :
        (ok : Bool) (r : Reason)
        → first_failed (((ok, r) ∷ xs) ++ ys) ≡ pass
        → (is_pass r ≡ false) × (any (λ c. is_pass c.1) xs ≡ false)
        → (first_failed (xs ++ ys) ≡ pass → All (λ c. c.0 ≡ true) xs × (first_failed ys ≡ pass))
        → All (λ c. c.0 ≡ true) ((ok, r) ∷ xs) × (first_failed ys ≡ pass)
    step true r h n k = ((refl, (k h).0), (k h).1)
    step false r h n k = absurd (false≢true (sym n.0 ∙ ap is_pass h))

and_both : (a b : Bool) → (a && b) ≡ true → (a ≡ true) × (b ≡ true)
and_both true b h = (refl, h)
and_both false b h = absurd (false≢true h)

at_most : (a b : ℕ) → leb a b ≡ true → a ≤ b
at_most a b h = ground arith

below : (a b : ℕ) → ltb a b ≡ true → a < b
below a b h = ground arith

not_above : (a b : ℕ) → not (ltb a b) ≡ true → b ≤ a
not_above a b h = ground arith

same_number : (a b : ℕ) → (a == b) ≡ true → a ≡ b
same_number a b h = ground arith

append_nil : (cs : List (Bool × Reason)) → first_failed cs ≡ pass → first_failed (cs ++ []) ≡ pass
append_nil [] h = h
append_nil ((true, r) ∷ cs) h = append_nil cs h
append_nil ((false, r) ∷ cs) h = h

plan_order :
    (side : Side) (p : Plan) → All (λ c. c.0 ≡ true) (price_checks side p) → IsExecutablePlan side p
unfolding price_checks
plan_order long p h =
    let inside = and_both _ _ h.1.0 in
    (
      at_most p.low p.price inside.0,
      at_most p.price p.high inside.1,
      not_above p.chase p.price h.1.1.0,
      below p.stop p.price h.1.1.1.0,
      below p.price p.target h.1.1.1.1.0,
    )
plan_order short p h =
    let inside = and_both _ _ h.1.0 in
    (
      at_most p.low p.price inside.0,
      at_most p.price p.high inside.1,
      not_above p.price p.chase h.1.1.0,
      below p.price p.stop h.1.1.1.0,
      below p.target p.price h.1.1.1.1.0,
    )

-- The tick and the plan that an accepted entry was checked with.
abbrev pub IsChecked : Settings → ℕ → ℕ → Queued → Payload → Side → Market → Type 0
IsChecked c now queued_at q p side m =
    (t : Tick) × (plan : Plan) × ((m.tick ≡ some t)
      × (plan_of (side_price side t) p ≡ some plan)
      × (now - t.quote_time ≤ c.tick_max_age)
      × (is_recent now c.closed_candle_max_age m.latest_candle ≡ true)
      × (or_else m.latest_candle 0 ≤ or_else p.source_candle 0)
      × (q.queued_scenario_version ≡ p.selected_scenario_version)
      × IsExecutablePlan side plan
      × (now - queued_at ≤ queue_ttl c q p.final_action)
      × (is_recent now c.max_decision_age p.decided_at ≡ true)
      × (and_some p.valid_until (λ u. leb now u) ≡ true)
      × (required_rr c p.risk_gate ≤ or_else (effective_rr c side t plan) 0))

plan_checks-IsChecked :
    (c : Settings) (now queued_at : ℕ) (q : Queued) (p : Payload) (side : Side) (m : Market)
    (t : Tick) (o : Option Plan)
    → m.tick ≡ some t
    → plan_of (side_price side t) p ≡ o
    → leb (now - t.quote_time) c.tick_max_age ≡ true
    → first_failed
        (candle_checks c now q p m.latest_candle ++ plan_checks c now queued_at q p side t o)
      ≡ pass
    → IsChecked c now queued_at q p side m
unfolding candle_checks price_checks age_checks ratio_checks
plan_checks-IsChecked c now queued_at q p side m t none e f k h = absurd (
    false≢true (
      ap is_pass
        (checked_append (candle_checks c now q p m.latest_candle)
          (plan_checks c now queued_at q p side t none) h refl).1))
plan_checks-IsChecked c now queued_at q p side m t (some plan) e f k h =
    let a =
      checked_append (candle_checks c now q p m.latest_candle)
        (plan_checks c now queued_at q p side t (some plan)) h refl in
    let b =
      checked_append (price_checks side plan)
        (age_checks c now queued_at q p t plan ++ ratio_checks c side p t plan) a.1 refl in
    let d =
      checked_append (age_checks c now queued_at q p t plan) (ratio_checks c side p t plan) b.1
        refl in
    let x =
      checked_append (ratio_checks c side p t plan) []
        (append_nil (ratio_checks c side p t plan) d.1) refl in
    (
      t,
      plan,
      (
        e,
        f,
        at_most _ _ k,
        a.0.1.1.0,
        at_most _ _ a.0.1.0,
        same_number _ _ a.0.1.1.1.0,
        plan_order side plan b.0,
        at_most _ _ d.0.0,
        d.0.1.0,
        d.0.1.1.0,
        at_most _ _ x.0.0,
      ),
    )

entry_reason-IsChecked :
    (c : Settings) (now queued_at : ℕ) (q : Queued) (p : Payload) (side : Side) (m : Market)
    (o : Option Tick)
    → m.tick ≡ o
    → entry_reason c now queued_at q p side o m.latest_candle ≡ pass
    → IsChecked c now queued_at q p side m
unfolding entry_reason
entry_reason-IsChecked c now queued_at q p side m none e h = absurd (false≢true (ap is_pass h))
entry_reason-IsChecked c now queued_at q p side m (some t) e h =
    elim (Bool-cases (leb (now - t.quote_time) c.tick_max_age)) [
      | inl k ↦
          plan_checks-IsChecked c now queued_at q p side m t (plan_of (side_price side t) p) e refl
            k (rw k at h)
      | inr k ↦ absurd (false≢true (ap is_pass (rw k at h)))
    ]

-- What the check has established of an entry that it lets pass.
abbrev pub IsSafeEntry : Settings → ℕ → ℕ → Queued → Market → Type 0
IsSafeEntry c now queued_at q m =
    (r : CurrentRow) × (side : Side) × ((m.current ≡ some r)
      × (q.queued_id ≡ r.decision_id)
      × (q.queued_version ≡ r.decision_version)
      × (r.payload.final_action ≡ enter side)
      × IsChecked c now queued_at q r.payload side m)

is_pass_of : (r : Reason) → is_pass r ≡ true → r ≡ pass
is_pass_of r h = ground (arith, h)

check_entry-IsChecked :
    (c : Settings) (now queued_at : ℕ) (q : Queued) (m : Market) (r : CurrentRow)
    (queued action : Action)
    → is_enter queued ≡ true
    → r.payload.final_action ≡ action
    → is_enter (check_entry c now queued_at q r.payload m queued action).rendered_action ≡ true
    → (check_entry c now queued_at q r.payload m queued action).allowed ≡ true
    → (side : Side) × ((r.payload.final_action ≡ enter side)
        × IsChecked c now queued_at q r.payload side m)
check_entry-IsChecked c now queued_at q m r (enter s) (enter side) e f h k = (
  side,
  (f, entry_reason-IsChecked c now queued_at q r.payload side m m.tick refl (is_pass_of _ k)),
)
check_entry-IsChecked c now queued_at q m r (enter s) (other_action a) e f h k =
    absurd (false≢true h)
check_entry-IsChecked c now queued_at q m r (other_action s) action e f h k = absurd (false≢true e)

superseded_not :
    (q : Queued) (r : CurrentRow)
    → is_superseded q r ≡ false
    → (q.queued_id ≡ r.decision_id) × (q.queued_version ≡ r.decision_version)
superseded_not q r h =
    let k = or_false _ _ h in
    (text_of q.queued_id r.decision_id (not-false _ k.0), same_number _ _ (not-false _ k.1))

check_row-IsSafeEntry :
    (c : Settings) (now queued_at : ℕ) (q : Queued) (m : Market) (o : Option CurrentRow)
    → m.current ≡ o
    → is_enter q.queued_decision ≡ true
    → (check_row c now queued_at q m o).allowed ≡ true
    → is_enter (check_row c now queued_at q m o).rendered_action ≡ true
    → IsSafeEntry c now queued_at q m
check_row-IsSafeEntry c now queued_at q m none s e k h = absurd (false≢true (rw e at k))
check_row-IsSafeEntry c now queued_at q m (some r) s e k h = elim (Bool-cases (is_superseded q r)) [
  | inl b ↦ absurd (false≢true (rw (e, b) at k))
  | inr b ↦
      let x =
        check_entry-IsChecked c now queued_at q m r q.queued_decision r.payload.final_action e refl
          (rw b at (rw e at h)) (rw b at (rw e at k)) in
      let y = superseded_not q r b in (r, x.0, (s, y.0, y.1, x.1.0, x.1.1))
]

-- An entry that is delivered as an entry names the current decision and its version, with a fresh tick
-- and no newer closed candle than the decision's; the price that it would be filled at lies in the
-- zone, not past the chase limit, the stop or the target; the message, the decision and its validity
-- are in time, and the ratio after costs is the required one.
pub validate-IsSafeEntry :
    (c : Settings) (now queued_at : ℕ) (q : Queued) (m : Market)
    → is_enter q.queued_decision ≡ true
    → (validate_pre_delivery c now queued_at q m).allowed ≡ true
    → is_enter (validate_pre_delivery c now queued_at q m).rendered_action ≡ true
    → IsSafeEntry c now queued_at q m
unfolding validate_pre_delivery
validate-IsSafeEntry c now queued_at q m e k h =
    check_row-IsSafeEntry c now queued_at q m m.current refl e k h
