-- ===== src/Calendar.antt =====
-- app/utils/timeutils.py and app/services/market_calendar.py: trading days, market hours and the
-- candles to expect. Instants are whole seconds and days are counted from a Monday, so that a day's
-- weekday is its number modulo 7, Monday 0. What zoneinfo knows of New York is the record Zone.
mod Tests
pub mod Days
pub mod Slots
use vi_xauusd.Prelude.{
  ltb, leb, ◌==◌, if◌then◌else◌, any, ℕ, zero, suc, ◌+◌, ◌-◌, ◌*◌, ◌/◌, ◌%◌, Bool, false, not, ◌&&◌,
  ◌||◌, Option, none, some, List, [], ◌∷◌,
}

-- The wall clock at an instant, in seconds since the first midnight, and the instant of a wall clock.
pub record Zone : Type 0 where
  pub local : ℕ → ℕ
  pub instant : ℕ → ℕ

abbrev pub daily_cut_hour : ℕ
daily_cut_hour = 17

abbrev pub daily_open_hour : ℕ
daily_open_hour = 18

abbrev pub date_of : ℕ → ℕ
date_of wall = wall / 86400

abbrev pub hour_of : ℕ → ℕ
hour_of wall = wall % 86400 / 3600

abbrev pub at_hour : ℕ → ℕ → ℕ
at_hour day hour = day * 86400 + hour * 3600

unfoldable pub trading_day : Zone → ℕ → ℕ
trading_day z t =
    let ny = z.local t in date_of ny + (if leb daily_cut_hour (hour_of ny) then 1 else 0)

unfoldable pub trading_day_bounds : Zone → ℕ → ℕ × ℕ
trading_day_bounds z day =
    (z.instant (at_hour (day - 1) daily_cut_hour), z.instant (at_hour day daily_cut_hour))

unfoldable pub trading_week_start : ℕ → ℕ
trading_week_start day = day - day % 7

-- `holidays` are days of New York.
unfoldable pub is_market_open : Zone → (ℕ → Bool) → ℕ → Bool
is_market_open z holidays t =
    let ny = z.local t in
    let wd = date_of ny % 7 in
    let hour = hour_of ny in
    if holidays (date_of ny)
    then false
    else if wd == 5
    then false
    else if wd == 6
    then leb daily_open_hour hour
    else if wd == 4
    then ltb hour daily_cut_hour
    else not (leb daily_cut_hour hour && ltb hour daily_open_hour)

-- `load_holidays`: those that are built in, and the table's where it can be read.
unfoldable pub load_holidays : (ℕ → Bool) → Option (List ℕ) → ℕ → Bool
load_holidays builtin none day = builtin day
load_holidays builtin (some rows) day = builtin day || any (λ d. d == day) rows

unfoldable pub market_is_open : Zone → (ℕ → Bool) → Option (List ℕ) → ℕ → Bool
unfolding is_market_open load_holidays
market_is_open z builtin rows now = is_market_open z (load_holidays builtin rows) now

-- The keys of `TIMEFRAME_MINUTES`.
pub data Intraday : Type 0 where
  m5 m15 m30 h1 h4 : Intraday

abbrev pub minutes_of : Intraday → ℕ
minutes_of m5 = 5
minutes_of m15 = 15
minutes_of m30 = 30
minutes_of h1 = 60
minutes_of h4 = 240

-- The step of the loop, in seconds.
abbrev pub step_of : Intraday → ℕ
step_of tf = minutes_of tf * 60

abbrev without_minutes : ℕ → ℕ → ℕ
without_minutes m t = t - (t / 60 % 60 % m * 60 + t % 60)

abbrev without_hours : ℕ → ℕ → ℕ
without_hours m t = let a = t - t / 60 % 60 * 60 in a - a / 3600 % 24 % (m / 60) * 3600

unfoldable pub aligned : Intraday → ℕ → ℕ
aligned m5 t = without_minutes 5 t
aligned m15 t = without_minutes 15 t
aligned m30 t = without_minutes 30 t
aligned h1 t = without_hours 60 (without_minutes 60 t)
aligned h4 t = without_hours 240 (without_minutes 240 t)

-- The loop `while t < end`, on fuel.
unfoldable pub collect : (ℕ → Bool) → ℕ → ℕ → ℕ → ℕ → ℕ → List ℕ
collect is_open start end step zero t = []
collect is_open start end step (suc fuel) t =
    let rest = collect is_open start end step fuel (t + step) in
    if ltb t end then (if leb start t && is_open t then t ∷ rest else rest) else []

unfoldable pub expected_candle_open_times : Zone → (ℕ → Bool) → ℕ → ℕ → Intraday → List ℕ
unfolding aligned collect is_market_open
expected_candle_open_times z holidays start end tf =
    collect (is_market_open z holidays) start end (step_of tf) (suc end) (aligned tf start)
