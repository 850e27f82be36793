-- ===== src/Regime.antt =====
-- app/engines/regime_state_machine.py: the market regime, derived again from the last closed candle at
-- each look. Prices are hundredths; a missing text is "" and a missing number none. The reasons, which
-- are texts, are left out; the log has the newest transition first.
mod Tests
pub mod Look
use vi_xauusd.Prelude.{
  ltb, leb, ◌==◌, if◌then◌else◌, or_else, ℕ, zero, suc, ◌+◌, ◌*◌, max, String, Bool, true, false,
  not, ◌&&◌, ◌||◌, Option, none, some, List, [], ◌∷◌, str_eq,
}
use vi_xauusd.Prelude.Int.{ℤ, ltb_ℤ}

pub data Trend : Type 0 where
  bullish bearish neutral : Trend

pub data Momentum : Type 0 where
  bearish_confirmed bullish_restored recovering weakening bullish_momentum bearish_momentum
        neutral_momentum :
      Momentum

pub data Composite : Type 0 where
  both_bearish htf_bullish_restored htf_bullish_recovering htf_bullish_weakening htf_bullish_bullish
        htf_bearish_bearish mixed_range :
      Composite

-- What the evaluation reads of `data` and `indicators`.
pub record Market : Type 0 where
  pub symbol : String
  pub data_version : ℕ
  pub trend_bias : Trend
  pub h4_trend : Option Trend
  pub h1_trend : Option Trend
  pub m15_trend : Option Trend
  pub short_term_momentum : String
  pub m15_momentum : String
  pub support_state : String
  pub closed_price : Option ℕ
  pub live_price : Option ℕ
  pub reclaim_level : Option ℕ
  pub source_candle : String
  pub evaluated_at : String
  pub rsi : Option ℕ
  pub rsi_prev : Option ℕ
  pub hist : Option ℤ
  pub hist_prev : Option ℤ

pub record Transition : Type 0 where
  pub previous_state : Option Momentum
  pub new_state : Momentum
  pub transition_candle : String
  pub transition_level : Option ℕ
  pub transition_at : String
  pub transition_version : ℕ

pub record Regime : Type 0 where
  pub htf_trend : Trend
  pub mid_structure : Trend
  pub composite : Composite
  pub is_live_testing : Bool
  pub confirmed_state : Option Momentum
  pub regime_level : Option ℕ
  pub regime_at : String
  pub regime_candle : String
  pub state_version : ℕ
  pub transition_log : List Transition

pub record RegimeEvent : Type 0 where
  pub event_id : String
  pub from_state : Option Momentum
  pub to_state : Momentum
  pub event_candle : String
  pub event_level : Option ℕ
  pub event_price : ℕ
  pub market_state : Composite
  pub event_data_version : ℕ

abbrev pub is_bullish : Trend → Bool
is_bullish bullish = true
is_bullish _ = false

abbrev pub is_bearish : Trend → Bool
is_bearish bearish = true
is_bearish _ = false

abbrev pub htf_of : Market → Trend
htf_of m = or_else m.h4_trend m.trend_bias

abbrev pub mid_of : Market → Trend
mid_of m = or_else m.h1_trend m.trend_bias

abbrev pub raw_momentum : Market → String
raw_momentum m =
    if not (str_eq m.short_term_momentum "")
    then m.short_term_momentum
    else if not (str_eq m.m15_momentum "")
    then m.m15_momentum
    else "stable"

abbrev pub structure_broken : Market → Bool
structure_broken m =
    str_eq m.support_state "confirmed_breakdown" || str_eq m.support_state "retest_rejected"

abbrev pub is_above : Option ℕ → Option ℕ → Bool
is_above (some x) (some y) = ltb y x
is_above _ _ = false

abbrev pub has_risen : Option ℤ → Option ℤ → Bool
has_risen (some now) (some before) = ltb_ℤ before now
has_risen _ _ = false

-- `closed_price >= reclaim - max(abs(reclaim) * .0005, .5)`, times 2000.
abbrev pub is_near : Option ℕ → Option ℕ → Bool
is_near (some c) (some r) = leb (2000 * r) (2000 * c + max r 100000)
is_near _ _ = false

abbrev pub confirmed_reclaim : Market → Bool
confirmed_reclaim m = is_above m.closed_price m.reclaim_level

abbrev pub is_recovering : Market → Bool
is_recovering m =
    is_near m.closed_price m.reclaim_level
    || is_above m.rsi m.rsi_prev
    || has_risen m.hist m.hist_prev

abbrev pub is_weak : Market → Bool
is_weak m =
    str_eq (raw_momentum m) "weakening"
    || str_eq (raw_momentum m) "pullback"
    || str_eq (raw_momentum m) "reversal_risk"
    || is_bearish (or_else m.m15_trend neutral)
    || structure_broken m

-- The state and its composite.
unfoldable pub classify : Market → Momentum × Composite
classify m =
    let both_up = is_bullish (htf_of m) && is_bullish (mid_of m) in
    let both_down = is_bearish (htf_of m) && is_bearish (mid_of m) in
    if is_bearish (mid_of m) && structure_broken m
    then (bearish_confirmed, both_bearish)
    else if both_up && confirmed_reclaim m
    then (bullish_restored, htf_bullish_restored)
    else if both_up && is_recovering m
    then (recovering, htf_bullish_recovering)
    else if both_up && is_weak m
    then (weakening, htf_bullish_weakening)
    else if both_up
    then (bullish_momentum, htf_bullish_bullish)
    else if both_down
    then (bearish_momentum, htf_bearish_bearish)
    else (neutral_momentum, mixed_range)

abbrev code : Momentum → ℕ
code bearish_confirmed = 0
code bullish_restored = 1
code recovering = 2
code weakening = 3
code bullish_momentum = 4
code bearish_momentum = 5
code neutral_momentum = 6

abbrev pub is_state : Option Momentum → Momentum → Bool
is_state none m = false
is_state (some x) m = code x == code m

abbrev pub is_new_candle : Regime → Market → Bool
is_new_candle p m = not (str_eq m.source_candle "") && not (str_eq m.source_candle p.regime_candle)

unfoldable pub version_after : Regime → Market → ℕ
unfolding classify
version_after p m =
    p.state_version
    + (if not (is_state p.confirmed_state (classify m).0) || is_new_candle p m then 1 else 0)

abbrev take : ℕ → List Transition → List Transition
take zero xs = []
take (suc n) [] = []
take (suc n) (x ∷ xs) = x ∷ take n xs

abbrev pub nonzero_or : Option ℕ → ℕ → ℕ
nonzero_or none d = d
nonzero_or (some x) d = if x == 0 then d else x

unfoldable pub transition_of : Regime → Market → Transition
unfolding classify version_after
transition_of p m = record {
  previous_state = p.confirmed_state;
  new_state = (classify m).0;
  transition_candle = m.source_candle;
  transition_level = m.reclaim_level;
  transition_at = m.evaluated_at;
  transition_version = version_after p m;
}

unfoldable pub event_of : (String → String) → Regime → Market → RegimeEvent
unfolding classify version_after
event_of identity p m = record {
  event_id = identity m.source_candle;
  from_state = p.confirmed_state;
  to_state = (classify m).0;
  event_candle = m.source_candle;
  event_level = m.reclaim_level;
  event_price = nonzero_or m.live_price (nonzero_or m.closed_price 0);
  market_state = (classify m).1;
  event_data_version = if m.data_version == 0 then version_after p m else m.data_version;
}

abbrev pub is_announced : Momentum → Bool
is_announced bullish_restored = true
is_announced bearish_confirmed = true
is_announced _ = false

-- `identity` is the digest that an event is named by, of its symbol, state and level.
unfoldable pub evaluate_regime_state :
    (Market → Momentum → String → String) → Regime → Market → Regime × List RegimeEvent
unfolding classify version_after transition_of event_of
evaluate_regime_state identity p m =
    let s = (classify m).0 in
    let log = take 49 p.transition_log in
    let changed = not (is_state p.confirmed_state s) in
    (
      record {
        htf_trend = htf_of m;
        mid_structure = mid_of m;
        composite = (classify m).1;
        is_live_testing = is_above m.live_price m.reclaim_level && not (confirmed_reclaim m);
        confirmed_state = some s;
        regime_level = m.reclaim_level;
        regime_at = m.evaluated_at;
        regime_candle = m.source_candle;
        state_version = version_after p m;
        transition_log = if changed then transition_of p m ∷ log else log;
      },
      if changed && is_announced s then event_of (identity m s) p m ∷ [] else [],
    )
