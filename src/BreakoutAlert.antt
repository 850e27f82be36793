-- ===== src/BreakoutAlert.antt =====
-- app/engines/breakout_alert_state.py: the bullish breakout, driven by closed candles. Prices are
-- ticks, and a zone that would begin below 0 begins at 0. The message text is left out.
pub mod Candles
mod Tests
use vi_xauusd.Prelude.{
  ltb, leb, ◌==◌, if◌then◌else◌, and_some, ℕ, ◌+◌, ◌-◌, max, String, Bool, true, false, not, ◌&&◌,
  ◌||◌, Option, none, some, str_eq,
}

pub data BreakoutStatus : Type 0 where
  neutral : BreakoutStatus
  pending_breakout : BreakoutStatus
  breakout_confirmed : BreakoutStatus
  bullish_continuation : BreakoutStatus
  breakout_failed : BreakoutStatus
  breakout_retest : BreakoutStatus

pub data Trend : Type 0 where
  ranging : Trend
  bullish : Trend

pub data Advice : Type 0 where
  wait_retest : Advice
  wait_confirmation : Advice
  failed_advice : Advice

pub record BreakoutState : Type 0 where
  pub status : BreakoutStatus
  pub zone_low : Option ℕ
  pub zone_high : Option ℕ
  pub breakout_time : String
  pub consecutive_closes : ℕ
  pub last_candle : String
  pub last_event : Option BreakoutStatus
  pub trend : Trend
  pub advice : Advice

pub record Market : Type 0 where
  pub resistance : Option (ℕ × ℕ)
  pub price : Option ℕ
  pub closed : Option ℕ
  pub candle : String
  pub market_timestamp : String
  pub h1_close : Option ℕ
  pub higher_low_broken : Bool
  pub macd_declining : Bool

abbrev pub is_neutral : BreakoutStatus → Bool
is_neutral neutral = true
is_neutral _ = false

abbrev pub is_broken_out : BreakoutStatus → Bool
is_broken_out breakout_confirmed = true
is_broken_out bullish_continuation = true
is_broken_out _ = false

abbrev pub truthy_or : Option ℕ → ℕ → ℕ
truthy_or none d = d
truthy_or (some n) d = if n == 0 then d else n

abbrev pub text_or : String → String → String
text_or a b = if str_eq a "" then b else a

-- The price is above the zone, and no candle has closed there.
unfoldable pub pending : BreakoutState → Market → ℕ → ℕ → ℕ → BreakoutState × Option BreakoutStatus
pending p m center low high =
    if ltb high (truthy_or m.price center)
      && not (and_some m.closed (λ c. ltb high c))
      && is_neutral p.status
    then (
      record {
        status = pending_breakout;
        zone_low = some low;
        zone_high = some high;
        breakout_time = text_or m.market_timestamp m.candle;
        consecutive_closes = 0;
        last_candle = m.candle;
        last_event = none;
        trend = bullish;
        advice = wait_confirmation;
      },
      some pending_breakout,
    )
    else (p, none)

abbrev pub count_of : BreakoutState → ℕ → ℕ
count_of p high = if and_some p.zone_high (λ z. z == high) then p.consecutive_closes + 1 else 1

-- A new candle has closed above the zone.
unfoldable pub confirm : BreakoutState → Market → ℕ → ℕ → BreakoutState × Option BreakoutStatus
confirm p m low high =
    let hour = and_some m.h1_close (λ c. ltb high c) in
    let count = if hour then max 2 (count_of p high) else count_of p high in
    let event =
      if hour || not (count_of p high == 1) then bullish_continuation else breakout_confirmed in
    (
      record {
        status = if leb 2 count then bullish_continuation else breakout_confirmed;
        zone_low = some low;
        zone_high = some high;
        breakout_time = text_or p.breakout_time m.candle;
        consecutive_closes = count;
        last_candle = m.candle;
        last_event = some event;
        trend = bullish;
        advice = wait_retest;
      },
      some event,
    )

-- A new candle has closed below the zone.
unfoldable pub fall_back : BreakoutState → Market → BreakoutState × Option BreakoutStatus
fall_back p m =
    let weak = m.higher_low_broken && m.macd_declining in
    let event = if weak then breakout_failed else breakout_retest in
    (
      record p {
        status = event;
        last_candle = m.candle;
        last_event = some event;
        advice = if weak then failed_advice else wait_retest;
      },
      some event,
    )

unfoldable pub in_zone : BreakoutState → Market → ℕ → ℕ → BreakoutState × Option BreakoutStatus
unfolding pending confirm fall_back
in_zone p m center buffer =
    let low = center - buffer in
    let high = center + buffer in
    let is_new = not (str_eq m.candle p.last_candle) in
    if and_some m.closed (λ c. ltb high c) && is_new
    then confirm p m low high
    else if is_broken_out p.status && and_some m.closed (λ c. ltb c low) && is_new
    then fall_back p m
    else pending p m center low high

unfoldable pub without_resistance :
    BreakoutState → Market → Option ℕ → BreakoutState × Option BreakoutStatus
unfolding in_zone
without_resistance p m none = (p, none)
without_resistance p m (some high) = in_zone p m high 0

unfoldable pub with_resistance :
    BreakoutState → Market → Option (ℕ × ℕ) → BreakoutState × Option BreakoutStatus
unfolding in_zone without_resistance
with_resistance p m (some r) = in_zone p m r.0 r.1
with_resistance p m none = without_resistance p m p.zone_high

unfoldable pub evaluate_breakout_alert :
    BreakoutState → Market → BreakoutState × Option BreakoutStatus
unfolding with_resistance
evaluate_breakout_alert p m = with_resistance p m m.resistance
