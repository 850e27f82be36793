-- ===== src/SetupValidator.antt =====
-- app/engines/setup_validator.py: the last check of the prices of a setup. Prices are signed ticks;
-- the band around the price and the least reward-to-risk ratio are in thousandths. A violation
-- keeps its severity and its kind, in place of the text.
pub mod Order
mod Tests
use vi_xauusd.Prelude.{
  ltb, if◌then◌else◌, and_some, ℕ, ◌+◌, ◌-◌, ◌*◌, Bool, true, false, not, ◌&&◌, ◌||◌, Option, none,
  some, List, [], ◌∷◌, ◌++◌,
}
use vi_xauusd.Prelude.Int.{ℤ, pos, pos_part, neg_part, ltb_ℤ}

pub data Severity : Type 0 where
  fatal : Severity
  reject : Severity

pub data Violation : Type 0 where
  not_positive : Violation
  out_of_band : Violation
  stop_on_wrong_side : Violation
  targets_out_of_order : Violation
  no_ratio : Violation
  ratio_too_low : Violation

abbrev pub severity : Violation → Severity
severity ratio_too_low = reject
severity _ = fatal

pub record Limits : Type 0 where
  pub setup_price_band : ℕ
  pub setup_min_rr1 : ℕ

pub record Setup : Type 0 where
  pub is_long : Bool
  pub entry : Option ℤ
  pub stop : Option ℤ
  pub targets : List ℤ
  pub current_price : ℤ

-- `abs(a - b)`
abbrev pub distance : ℤ → ℤ → ℕ
distance a b =
    let x = pos_part a + neg_part b in let y = pos_part b + neg_part a in (x - y) + (y - x)

abbrev pub is_positive : ℤ → Bool
is_positive p = ltb_ℤ (pos 0) p

unfoldable pub check_price : Limits → ℤ → ℤ → List Violation
check_price l current price =
    if not (is_positive price)
    then not_positive ∷ []
    else if is_positive current
        && ltb (l.setup_price_band * pos_part current) (distance price current * 1000)
    then out_of_band ∷ []
    else []

abbrev pub of_option {ℓ} : {A : Type ℓ} → Option A → List A
of_option none = []
of_option (some x) = x ∷ []

unfoldable pub check_prices : Limits → ℤ → List ℤ → List Violation
unfolding check_price
check_prices l current [] = []
check_prices l current (p ∷ ps) = check_price l current p ++ check_prices l current ps

-- The second price lies on the winning side of the first.
abbrev pub is_ahead : Bool → ℤ → ℤ → Bool
is_ahead up a b = if up then ltb_ℤ a b else ltb_ℤ b a

unfoldable pub in_order : Bool → ℤ → List ℤ → Bool
in_order up a [] = true
in_order up a (b ∷ bs) = is_ahead up a b && in_order up b bs

unfoldable pub stop_side_ok : Bool → ℤ → ℤ → Bool
stop_side_ok up entry stop = is_ahead up stop entry

abbrev pub has_stop_error : Setup → Bool
has_stop_error s = and_some s.entry (λ e. and_some s.stop (λ x. not (is_ahead s.is_long x e)))

unfoldable pub check_order : Bool → Option ℤ → List ℤ → List Violation
unfolding in_order
check_order up none targets = []
check_order up (some e) targets = if in_order up e targets then [] else targets_out_of_order ∷ []

-- `abs(tp1 - entry) / abs(entry - sl) < setup_min_rr1`
unfoldable pub ratio_is_low : Limits → Option ℤ → Option ℤ → List ℤ → Bool
ratio_is_low l (some e) (some x) (t ∷ ts) =
    ltb 0 (distance e x) && ltb (distance t e * 1000) (l.setup_min_rr1 * distance e x)
ratio_is_low l _ _ _ = false

unfoldable pub check_stop : Setup → List Violation
check_stop s = if has_stop_error s then stop_on_wrong_side ∷ [] else []

-- No ratio is computed from a stop on the wrong side.
unfoldable pub check_ratio : Limits → Setup → List Violation
unfolding ratio_is_low
check_ratio l s =
    if has_stop_error s
    then no_ratio ∷ []
    else if ratio_is_low l s.entry s.stop s.targets
    then ratio_too_low ∷ []
    else []

abbrev pub all_prices : Setup → List ℤ
all_prices s = of_option s.entry ++ of_option s.stop ++ s.targets

unfoldable pub validate_prices_detailed : Limits → Setup → List Violation
unfolding check_prices check_stop check_order check_ratio
validate_prices_detailed l s =
    check_prices l s.current_price (all_prices s)
    ++ (check_stop s ++ (check_order s.is_long s.entry s.targets ++ check_ratio l s))

abbrev pub is_fatal : Violation → Bool
is_fatal v = elim (severity v) [ fatal ↦ true | reject ↦ false ]

unfoldable pub has_fatal : List Violation → Bool
has_fatal [] = false
has_fatal (v ∷ vs) = is_fatal v || has_fatal vs
