-- ===== src/Risk/Assessment.antt =====
-- app/engines/position_assessment.py: a new entry and an existing position are judged apart. The
-- messages are left out. The last bars are given as a list of closed 15-minute candles, the newest
-- last; prices are ticks and the MACD histogram a signed number.
pub mod Separation
use vi_xauusd.Prelude.{
  ltb, if◌then◌else◌, is_some, ℕ, ◌+◌, ◌-◌, String, Bool, true, false, not, ◌&&◌, ◌||◌, Option,
  List, [], ◌∷◌, str_eq,
}
use vi_xauusd.Prelude.Int.{ℤ, ltb_ℤ}
use vi_xauusd.Risk.Weakness.{
  Support, no_break, retest_rejected, failed_breakdown, Weakness, confirmed_weakness, accelerating,
  both, is_negative,
}
use vi_xauusd.Risk.Priority.{Readiness}

pub data Side : Type 0 where
  long : Side
  short : Side
  unknown_side : Side

pub data Timeframe : Type 0 where
  m15 : Timeframe
  h1 : Timeframe
  h4 : Timeframe
  d1 : Timeframe
  unknown_timeframe : Timeframe

pub record PositionContext : Type 0 where
  pub direction : Side
  pub entry_price : Option ℕ
  pub size : Option ℕ
  pub timeframe : Timeframe
  pub original_stop : Option ℕ
  pub max_loss_usd : Option ℕ
  pub thesis : String
  pub allow_event_hold : Option Bool

abbrev is_side : Side → Bool
is_side unknown_side = false
is_side _ = true

abbrev is_timeframe : Timeframe → Bool
is_timeframe unknown_timeframe = false
is_timeframe _ = true

-- `PositionContext.complete`
unfoldable pub is_complete : PositionContext → Bool
is_complete c =
    is_side c.direction
    && is_some c.entry_price
    && is_some c.size
    && is_timeframe c.timeframe
    && (is_some c.original_stop || is_some c.max_loss_usd)
    && not (str_eq c.thesis "")
    && is_some c.allow_event_hold

pub data TwoSided : Type 0 where
  normal_risk : TwoSided
  downside_continuation : TwoSided
  oversold_rebound : TwoSided
  high_whipsaw : TwoSided

abbrev pub is_confirmed : Weakness → Bool
is_confirmed confirmed_weakness = true
is_confirmed accelerating = true
is_confirmed _ = false

unfoldable pub classify_two_sided_risk : Weakness → Bool → TwoSided
classify_two_sided_risk weakness oversold =
    if oversold && is_confirmed weakness
    then high_whipsaw
    else if oversold
    then oversold_rebound
    else if is_confirmed weakness
    then downside_continuation
    else normal_risk

pub data Reversal : Type 0 where
  no_reversal : Reversal
  oversold_without_reversal : Reversal
  selling_exhaustion_candidate : Reversal
  reclaim_attempt : Reversal
  reversal_confirmed : Reversal
  reversal_failed : Reversal

pub record Bar : Type 0 where
  pub bar_open : ℕ
  pub bar_low : ℕ
  pub bar_close : ℕ

abbrev oversold_or_none : Bool → Reversal
oversold_or_none oversold = if oversold then oversold_without_reversal else no_reversal

abbrev contracting : Option ℤ → Option ℤ → Bool
contracting hist hist_prev = both hist hist_prev (λ h p. is_negative h && ltb_ℤ p h)

-- `close - low > abs(close - open)`
abbrev long_lower_wick : Bar → Bool
long_lower_wick b =
    ltb (b.bar_low + (b.bar_open - b.bar_close) + (b.bar_close - b.bar_open)) b.bar_close

abbrev is_unbroken : Support → Bool
is_unbroken no_break = true
is_unbroken _ = false

-- The newest two of at least three bars.
unfoldable pub judge_bars : Bar → Bar → Option ℤ → Option ℤ → Support → Bool → Reversal
judge_bars prev last hist hist_prev support oversold =
    let stops = contracting hist hist_prev && not (ltb last.bar_low prev.bar_low) in
    if is_unbroken support && oversold && stops
    then reversal_confirmed
    else if oversold && stops && long_lower_wick last
    then selling_exhaustion_candidate
    else oversold_or_none oversold

abbrev last_two : Bar → Bar → Bar → List Bar → Bar × Bar
last_two a b c [] = (b, c)
last_two a b c (d ∷ bars) = last_two b c d bars

abbrev is_attempt : Support → Bool
is_attempt failed_breakdown = true
is_attempt _ = false

abbrev is_rejected : Support → Bool
is_rejected retest_rejected = true
is_rejected _ = false

unfoldable pub by_count : List Bar → Option ℤ → Option ℤ → Support → Bool → Reversal
unfolding judge_bars
by_count (a ∷ b ∷ c ∷ bars) hist hist_prev support oversold =
    let (prev, last) = last_two a b c bars in judge_bars prev last hist hist_prev support oversold
by_count _ hist hist_prev support oversold = oversold_or_none oversold

unfoldable pub classify_reversal_state : List Bar → Option ℤ → Option ℤ → Support → Bool → Reversal
unfolding by_count
classify_reversal_state [] hist hist_prev support oversold = oversold_or_none oversold
classify_reversal_state (a ∷ bars) hist hist_prev support oversold =
    if is_attempt support
    then reclaim_attempt
    else if is_rejected support
    then reversal_failed
    else by_count (a ∷ bars) hist hist_prev support oversold

pub data Action : Type 0 where
  insufficient_context : Action
  follow_original_plan : Action
  monitor_reclaim : Action
  exit_confirmed : Action

pub data Thesis : Type 0 where
  unknown_thesis : Thesis
  intact : Thesis
  under_pressure : Thesis
  invalidated : Thesis

pub record Assessment : Type 0 where
  pub two_sided : TwoSided
  pub reversal : Reversal
  pub readiness : Readiness
  pub long_allowed : Bool
  pub short_allowed : Bool
  pub whipsaw_warning : Bool
  pub action : Action
  pub thesis_status : Thesis
  pub context_complete : Bool
  pub has_invalidation_evidence : Bool

unfoldable pub judge_position : Bool → Weakness → Bool → Action × Thesis
judge_position false w invalidation = (insufficient_context, unknown_thesis)
judge_position true w invalidation =
    if invalidation
    then (exit_confirmed, invalidated)
    else if is_confirmed w
    then (monitor_reclaim, under_pressure)
    else (follow_original_plan, intact)

-- `allowed` is the pair of permissions for a new long and a new short.
unfoldable pub assess_trading_decision :
    Weakness → Bool → Reversal → Readiness → Bool × Bool → PositionContext → Bool → Assessment
unfolding judge_position
assess_trading_decision weakness oversold reversal readiness allowed context invalidation =
    let complete = is_complete context in
    let (action, thesis) = judge_position complete weakness invalidation in
    record {
      two_sided = classify_two_sided_risk weakness oversold;
      reversal = reversal;
      readiness = readiness;
      long_allowed = allowed.0;
      short_allowed = allowed.1;
      whipsaw_warning = elim (classify_two_sided_risk weakness oversold) [
        | high_whipsaw ↦ true
        | _ ↦ false
      ];
      action = action;
      thesis_status = thesis;
      context_complete = complete;
      has_invalidation_evidence = complete && invalidation;
    }
