-- ===== src/ShortAlert/Zones.antt =====
-- app/engines/short_alert_state.py: `validate_alert_zones` and `_support_level`.
use vi_xauusd.Prelude.{
  ltb, leb, if◌then◌else◌, is_some, or_else, or_option, ℕ, ◌+◌, ◌-◌, ◌*◌, Bool, true, false, not,
  ◌&&◌, ◌||◌, Option, none, some, List, [], ◌∷◌,
}
use vi_xauusd.ShortAlert.State.{
  support, resistance, Level, Snapshot, Blocked, bad_bounds, zone_too_wide, crossed_levels,
  overlapping_zones,
}

abbrev is_support : Level → Bool
is_support l = elim (l.kind) [ support ↦ true | _ ↦ false ]

abbrev is_resistance : Level → Bool
is_resistance l = elim (l.kind) [ resistance ↦ true | _ ↦ false ]

abbrev first_level : (Level → Bool) → List Level → Option Level
first_level p [] = none
first_level p (l ∷ ls) = let rest = first_level p ls in if p l then some l else rest

-- `_support_level`
unfoldable pub support_level : List Level → Option Level
support_level = first_level (λ l. is_support l && l.is_15m)

pub check_level : ℕ → Level → Option Blocked
check_level atr l =
    if not (is_some l.price) || not (is_some l.buffer)
    then some bad_bounds
    else if leb atr 0 || ltb (atr * 3) (or_else l.buffer 0 * 4)
    then some zone_too_wide
    else none

pub check_levels : ℕ → List Level → Option Blocked
unfolding check_level
check_levels atr [] = none
check_levels atr (l ∷ ls) = or_option (check_level atr l) (check_levels atr ls)

abbrev pub least : ℕ → ℕ → ℕ
least a b = if ltb b a then b else a

abbrev pub greatest : ℕ → ℕ → ℕ
greatest a b = if ltb a b then b else a

-- Support and resistance, each with its buffer.
pub check_pair : ℕ → ℕ → ℕ → ℕ → Option Blocked
check_pair s sb r rb =
    let overlap = least (s + sb) (r + rb) - greatest (s - sb) (r - rb) in
    let smaller = least (2 * sb) (2 * rb) in
    if leb r s
    then some crossed_levels
    else if ltb 0 smaller && leb smaller (overlap * 2)
    then some overlapping_zones
    else none

abbrev check_both : Option Level → Option Level → Option Blocked
check_both none r = none
check_both (some s) none = none
check_both (some s) (some r) =
    check_pair (or_else s.price 0) (or_else s.buffer 0) (or_else r.price 0) (or_else r.buffer 0)

unfoldable pub validate_alert_zones : Snapshot → Option Blocked
unfolding check_levels check_pair
validate_alert_zones n =
    or_option (check_levels n.atr n.levels)
      (check_both (first_level is_support n.levels) (first_level is_resistance n.levels))
