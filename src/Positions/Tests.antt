-- ===== src/Positions/Tests.antt =====
-- app/services/position_service.py at concrete inputs.
use vi_xauusd.Prelude.{ℕ, ◌≡◌, refl, true, none, some, List, [], ◌∷◌, arith}
use vi_xauusd.Prelude.Int.{ℤ}
use vi_xauusd.Positions.{
  long, m15, Position, exited, remaining, partial_exit, close_position, Request, modifies,
  exits_part, closes, step, run,
}
use vi_xauusd.Positions.Stops.{IsKept, run-IsKept}
use vi_xauusd.Positions.Exits.{IsAccounted}

abbrev buy : Position
buy = record {
  side = long;
  entry_price = 240000;
  stop_loss = some 239000;
  lot_size = 10;
  timeframe = m15;
  thesis = "trend";
  max_loss_usd = none;
  allow_event_hold = none;
  open_time = 5;
  close_time = none;
  planned_targets = [];
  exits = [];
  stop_changes = [];
  is_open = true;
}

abbrev no_rounding : ℤ → ℕ → ℤ
no_rounding a b = a

abbrev day : List (ℕ × Request)
day =
    (10, modifies 239500)
    ∷ (20, modifies 239200)
    ∷ (30, exits_part 3000 241000)
    ∷ (40, closes 242000)
    ∷ []

-- The second change would loosen the stop and is refused.
day_stop : (run no_rounding buy day).stop_loss ≡ some 239500
unfolding run step partial_exit close_position remaining
day_stop = refl

day_exits : exited (run no_rounding buy day).exits ≡ 10000
unfolding run step partial_exit close_position remaining
day_exits = refl

run-IsKept_example : IsKept buy (run no_rounding buy day)
run-IsKept_example = run-IsKept no_rounding day buy

buy-IsAccounted : IsAccounted buy
unfolding exited
buy-IsAccounted = record {
  open_rest = λ h. omega arith;
  closed_rest = λ h. absurd (ground arith);
  closed_time = λ h. absurd (ground arith);
}
