-- ===== src/Calendar/Tests.antt =====
-- app/utils/timeutils.py at concrete inputs.
use vi_xauusd.Prelude.{
  ltb, if◌then◌else◌, ℕ, ◌+◌, ◌-◌, ◌*◌, ◌%◌, ◌≤◌, ◌<◌, ◌≡◌, refl, ◌↔◌, true, false, [], ◌∷◌, arith,
}
use vi_xauusd.Calendar.{
  Zone, trading_day, trading_day_bounds, is_market_open, h1, step_of, collect,
  expected_candle_open_times,
}
use vi_xauusd.Calendar.Days.{HasCut, trading_day_iff}
use vi_xauusd.Calendar.Slots.{contains, IsAscending, contains-expected}

-- Five hours behind until the second Sunday's 07:00, four from then on: clocks go forward at 02:00.
abbrev spring : ℕ
spring = 13 * 86400 + 7 * 3600

abbrev new_york : Zone
new_york = record {
  local = λ t. if ltb t spring then t - 5 * 3600 else t - 4 * 3600;
  instant = λ w. if ltb w (spring - 5 * 3600) then w + 5 * 3600 else w + 4 * 3600;
}

new_york_cut : HasCut new_york
new_york_cut day t = ground arith

-- 21:00 in London on the second Monday, after the change.
trading_day_iff_example : (trading_day new_york 1285200 ≡ 15) ↔ (
    ((trading_day_bounds new_york 15).0 ≤ 1285200) × (1285200 < (trading_day_bounds new_york 15).1))
trading_day_iff_example = trading_day_iff new_york 15 1285200 new_york_cut (omega arith)

contains-expected_example :
    ((contains 1206000 (expected_candle_open_times new_york (λ d. false) 1195000 1210000 h1) ≡ true)
      ↔ ((1195000 ≤ 1206000)
          × (1206000 < 1210000)
          × (1206000 % step_of h1 ≡ 0)
          × (is_market_open new_york (λ d. false) 1206000 ≡ true)))
    × IsAscending 0 (expected_candle_open_times new_york (λ d. false) 1195000 1210000 h1)
contains-expected_example = contains-expected new_york (λ d. false) 1195000 1210000 1206000 h1

sunday_day : trading_day new_york 1206000 ≡ 14
unfolding trading_day
sunday_day = refl

-- Two full hours are left of the span.
sunday_hours : collect (λ t. true) 1195000 1202500 3600 5 1191600 ≡ 1195200 ∷ 1198800 ∷ 1202400 ∷ []
unfolding collect
sunday_hours = refl
