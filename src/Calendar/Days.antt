-- ===== src/Calendar/Days.antt =====
-- Trading days against instants.
use vi_xauusd.Prelude.{ℕ, ◌+◌, ◌-◌, ◌%◌, ◌≤◌, ◌<◌, ◌≡◌, ◌↔◌, Bool, true, false, arith}
use vi_xauusd.Calendar.{
  Zone, daily_cut_hour, date_of, at_hour, trading_day, trading_day_bounds, trading_week_start,
  is_market_open,
}

-- New York's wall clock passes 17:00 once a day, forwards: the clock is only changed at night.
abbrev pub HasCut : Zone → Type 0
HasCut z =
    (day t : ℕ)
    → (z.instant (at_hour day daily_cut_hour) ≤ t) ↔ (at_hour day daily_cut_hour ≤ z.local t)

-- An instant has a trading day exactly when it lies within the bounds of that day, its open included
-- and its close excluded.
pub trading_day_iff :
    (z : Zone) (day t : ℕ)
    → HasCut z
    → 0 < day
    → (trading_day z t ≡ day)
      ↔ (((trading_day_bounds z day).0 ≤ t) × (t < (trading_day_bounds z day).1))
unfolding trading_day trading_day_bounds
trading_day_iff z day t cut pos = ground (arith, cut (day - 1) t, cut day t)

-- While the market is open, the trading day is a day from Monday to Friday, of the week that starts
-- with its Monday, and no holiday of New York is today.
pub is_market_open-trading_day :
    (z : Zone) (holidays : ℕ → Bool) (t : ℕ)
    → is_market_open z holidays t ≡ true
    → (trading_day z t < trading_week_start (trading_day z t) + 5)
      × (trading_week_start (trading_day z t) ≤ trading_day z t)
      × (trading_week_start (trading_day z t) % 7 ≡ 0)
      × (holidays (date_of (z.local t)) ≡ false)
unfolding is_market_open trading_day trading_week_start
is_market_open-trading_day z holidays t h = ground arith
