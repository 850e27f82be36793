-- ===== src/SetupValidator/Order.antt =====
-- What a setup that passes looks like.
use vi_xauusd.Prelude.{◌≡◌, refl, Bool, true, false, some, List, [], ◌∷◌, ◌++◌, arith}
use vi_xauusd.Prelude.Int.{ℤ}
use vi_xauusd.SetupValidator.{
  Limits, Setup, check_prices, is_ahead, in_order, check_order, ratio_is_low, check_stop,
  check_ratio, all_prices, validate_prices_detailed,
}

append-nil_left : {A : Type 0} (xs ys : List A) → xs ++ ys ≡ [] → xs ≡ []
append-nil_left [] ys h = refl
append-nil_left (x ∷ xs) ys h = absurd (ground (arith, h))

append-nil_right : {A : Type 0} (xs ys : List A) → xs ++ ys ≡ [] → ys ≡ []
append-nil_right [] ys h = h
append-nil_right (x ∷ xs) ys h = absurd (ground (arith, h))

append4-nil :
    {A : Type 0} (a b c d : List A) → a ++ (b ++ (c ++ d)) ≡ [] → (b ≡ []) × (c ≡ []) × (d ≡ [])
append4-nil a b c d h =
    let h1 = append-nil_right a (b ++ (c ++ d)) h in
    let h2 = append-nil_right b (c ++ d) h1 in
    (append-nil_left b (c ++ d) h1, append-nil_left c d h2, append-nil_right c d h2)

stop_lem :
    (s : Setup) (e x : ℤ)
    → s.entry ≡ some e
    → s.stop ≡ some x
    → check_stop s ≡ []
    → is_ahead s.is_long x e ≡ true
unfolding check_stop
stop_lem s e x he hx h = ground arith

order_lem :
    (up : Bool) (e : ℤ) (targets : List ℤ)
    → check_order up (some e) targets ≡ []
    → in_order up e targets ≡ true
unfolding check_order
order_lem up e targets h = ground arith

ratio_lem :
    (l : Limits) (s : Setup)
    → check_ratio l s ≡ []
    → ratio_is_low l s.entry s.stop s.targets ≡ false
unfolding check_ratio
ratio_lem l s h = ground arith

-- A setup with an entry and a stop that passes without a violation has the stop on the losing side of
-- the entry, the targets in order beyond the entry, and a reward that is not below the least ratio.
pub validate-ordered :
    (l : Limits) (s : Setup) (e x : ℤ)
    → s.entry ≡ some e
    → s.stop ≡ some x
    → validate_prices_detailed l s ≡ []
    → (is_ahead s.is_long x e ≡ true)
      × (in_order s.is_long e s.targets ≡ true)
      × (ratio_is_low l s.entry s.stop s.targets ≡ false)
unfolding validate_prices_detailed
validate-ordered l s e x he hx h =
    let (a, b, c) =
      append4-nil (check_prices l s.current_price (all_prices s)) (check_stop s)
        (check_order s.is_long s.entry s.targets) (check_ratio l s) h in
    (stop_lem s e x he hx a, order_lem s.is_long e s.targets (rw he at b), ratio_lem l s c)
