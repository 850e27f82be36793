-- ===== src/Positions.antt =====
-- app/services/position_service.py and app/engines/trading_invariants.py: the positions that are kept
-- by hand. Prices are ticks, percentages are in hundredths of a percent, R multiples in hundredths;
-- `round` stands for Python's rounding of a quotient to two digits. The lookups of a position by its
-- id and of its account are left out: an operation takes the row that was found, or none.
mod Tests
pub mod Stops
pub mod Exits
use vi_xauusd.Prelude.{
  ltb, leb, ◌==◌, if◌then◌else◌, is_some, or_option, and_some, ℕ, ◌+◌, ◌-◌, String, Bool, true,
  false, not, ◌||◌, Option, none, some, List, [], ◌∷◌, ◌++◌,
}
use vi_xauusd.Prelude.Int.{ℤ, pos, negsuc, ltb_ℤ}

pub data Side : Type 0 where
  long : Side
  short : Side

pub data Timeframe : Type 0 where
  m15 : Timeframe
  h1 : Timeframe
  h4 : Timeframe
  d1 : Timeframe
  unknown_timeframe : Timeframe

pub record Exit : Type 0 where
  pub percent : ℕ
  pub exit_price : ℕ
  pub r_at_exit : Option ℤ

pub record StopChange : Type 0 where
  pub old_stop : Option ℕ
  pub new_stop : ℕ
  pub widening : Bool

pub record Position : Type 0 where
  pub side : Side
  pub entry_price : ℕ
  pub stop_loss : Option ℕ
  pub lot_size : ℕ
  pub timeframe : Timeframe
  pub thesis : String
  pub max_loss_usd : Option ℕ
  pub allow_event_hold : Option Bool
  pub open_time : ℕ
  pub close_time : Option ℕ
  pub planned_targets : List ℕ
  pub exits : List Exit
  pub stop_changes : List StopChange
  pub is_open : Bool

pub data Error : Type 0 where
  bad_lot_size : Error
  bad_max_loss : Error
  stop_on_wrong_side : Error
  not_positive : Error
  stop_loosened : Error
  not_open : Error
  bad_percent : Error

pub data Outcome : Type 0 where
  saved : Position → Outcome
  refused : Error → Outcome

abbrev pub is_zero : Option ℕ → Bool
is_zero o = and_some o (λ n. n == 0)

abbrev pub wrong_side : Side → ℕ → ℕ → Bool
wrong_side long entry stop = leb entry stop
wrong_side short entry stop = leb stop entry

-- `create_position`, with the timeframe already parsed.
unfoldable pub create_position : Position → Outcome
create_position p =
    if p.lot_size == 0
    then refused bad_lot_size
    else if is_zero p.max_loss_usd
    then refused bad_max_loss
    else if and_some p.stop_loss (wrong_side p.side p.entry_price)
    then refused stop_on_wrong_side
    else saved (record p { close_time = none; exits = []; stop_changes = []; is_open = true })

-- `validate_stop_update`
abbrev pub loosens : Side → ℕ → ℕ → Bool
loosens long old new = ltb new old
loosens short old new = ltb old new

unfoldable pub validate_stop_update : Side → Option ℕ → ℕ → Option Error
validate_stop_update side old new =
    if new == 0
    then some not_positive
    else if and_some old (λ o. loosens side o new)
    then some stop_loosened
    else none

unfoldable pub apply_stop : Position → ℕ → Option Error → Outcome
apply_stop p new (some e) = refused e
apply_stop p new none = saved (record p {
  stop_loss = some new;
  stop_changes =
      p.stop_changes
      ++ record {
        old_stop = p.stop_loss;
        new_stop = new;
        widening = and_some p.stop_loss (λ o. loosens p.side o new);
      }
        ∷ [];
})

unfoldable pub modify_stop : Option Position → ℕ → Outcome
unfolding validate_stop_update apply_stop
modify_stop none new = refused not_open
modify_stop (some p) new =
    if p.is_open
    then apply_stop p new (validate_stop_update p.side p.stop_loss new)
    else refused not_open

-- The stop that the first change replaced, else the stop itself.
unfoldable pub first_stop : List StopChange → Option ℕ → Option ℕ
first_stop [] stop = stop
first_stop (c ∷ cs) stop = or_option c.old_stop (first_stop cs stop)

unfoldable pub initial_stop : Position → Option ℕ
unfolding first_stop
initial_stop p = first_stop p.stop_changes p.stop_loss

abbrev pub distance : ℕ → ℕ → ℕ
distance a b = (a - b) + (b - a)

-- The gain in the direction of the position.
abbrev pub gain : Side → ℕ → ℕ → ℤ
gain long entry price = if leb entry price then pos (price - entry) else negsuc (entry - price - 1)
gain short entry price = if leb price entry then pos (entry - price) else negsuc (price - entry - 1)

unfoldable pub r_of : (ℤ → ℕ → ℤ) → Position → ℕ → Option ℕ → Option ℤ
r_of round p price none = none
r_of round p price (some stop) =
    let risk = distance p.entry_price stop in
    if risk == 0 then none else some (round (gain p.side p.entry_price price) risk)

unfoldable pub r_multiple : (ℤ → ℕ → ℤ) → Position → ℕ → Option ℤ
unfolding r_of initial_stop
r_multiple round p price = if is_some p.stop_loss then r_of round p price (initial_stop p) else none

unfoldable pub exited : List Exit → ℕ
exited [] = 0
exited (x ∷ xs) = x.percent + exited xs

abbrev pub whole : ℕ
whole = 10000

-- `remaining_fraction`, in hundredths of a percent.
unfoldable pub remaining : Position → ℕ
unfolding exited
remaining p = whole - exited p.exits

unfoldable pub partial_exit : (ℤ → ℕ → ℤ) → ℕ → Option Position → ℕ → ℕ → Outcome
unfolding r_multiple exited
partial_exit round now none percent price =
    if percent == 0 || ltb whole percent then refused bad_percent else refused not_open
partial_exit round now (some p) percent price =
    let hist =
      p.exits
      ++ record { percent = percent; exit_price = price; r_at_exit = r_multiple round p price }
        ∷ [] in
    if percent == 0 || ltb whole percent
    then refused bad_percent
    else if not p.is_open
    then refused not_open
    else if leb whole (exited hist)
    then saved (record p { exits = hist; is_open = false; close_time = some now })
    else saved (record p { exits = hist })

unfoldable pub close_position : (ℤ → ℕ → ℤ) → ℕ → Option Position → ℕ → Outcome
close_position round now none price = refused not_open
close_position round now (some p) price =
    if not p.is_open
    then refused not_open
    else partial_exit round now (some p) (if remaining p == 0 then whole else remaining p) price

unfoldable pub update_position_context :
    Option Position → Timeframe → String → Option ℕ → Option Bool → Outcome
update_position_context none timeframe thesis loss hold =
    if is_zero loss then refused bad_max_loss else refused not_open
update_position_context (some p) timeframe thesis loss hold =
    if is_zero loss
    then refused bad_max_loss
    else if not p.is_open
    then refused not_open
    else saved (record p {
      timeframe = timeframe;
      thesis = thesis;
      max_loss_usd = loss;
      allow_event_hold = hold;
    })

pub data Advice : Type 0 where
  set_a_stop : Advice
  leave_now : Advice
  keep_the_stop : Advice
  take_some : Advice
  take_more : Advice

abbrev pub le_ℤ : ℤ → ℤ → Bool
le_ℤ a b = not (ltb_ℤ b a)

-- `recommended_action`, on the R multiple.
unfoldable pub recommended_action : Option ℤ → Advice
recommended_action none = set_a_stop
recommended_action (some r) =
    if le_ℤ r (negsuc 99)
    then leave_now
    else if ltb_ℤ r (pos 100)
    then keep_the_stop
    else if ltb_ℤ r (pos 200)
    then take_some
    else take_more

-- One request about a position.
pub data Request : Type 0 where
  modifies : ℕ → Request
  exits_part : ℕ → ℕ → Request
  closes : ℕ → Request
  updates : Timeframe → String → Option ℕ → Option Bool → Request

abbrev pub after : Position → Outcome → Position
after p (saved q) = q
after p (refused e) = p

unfoldable pub step : (ℤ → ℕ → ℤ) → Position → ℕ × Request → Position
unfolding modify_stop update_position_context
step round p (now, modifies new) = after p (modify_stop (some p) new)
step round p (now, exits_part percent price) =
    after p (partial_exit round now (some p) percent price)
step round p (now, closes price) = after p (close_position round now (some p) price)
step round p (now, updates t s l h) = after p (update_position_context (some p) t s l h)

unfoldable pub run : (ℤ → ℕ → ℤ) → Position → List (ℕ × Request) → Position
run round p [] = p
run round p (r ∷ rs) = run round (step round p r) rs
