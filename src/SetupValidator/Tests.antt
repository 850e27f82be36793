-- ===== src/SetupValidator/Tests.antt =====
-- app/engines/setup_validator.py at concrete inputs.
use vi_xauusd.Prelude.{◌≡◌, refl, true, some, [], ◌∷◌}
use vi_xauusd.Prelude.Int.{pos}
use vi_xauusd.SetupValidator.{
  stop_on_wrong_side, no_ratio, Limits, Setup, check_price, validate_prices_detailed,
}
use vi_xauusd.SetupValidator.Order.{}

abbrev limits : Limits
limits = record { setup_price_band = 50; setup_min_rr1 = 1500 }

abbrev buy : Setup
buy = record {
  is_long = true;
  entry = some (pos 2400);
  stop = some (pos 2390);
  targets = pos 2416 ∷ pos 2430 ∷ [];
  current_price = pos 2401;
}

-- A stop above the entry of a long.
wrong_side :
    validate_prices_detailed limits (record buy { stop = some (pos 2405) })
    ≡ stop_on_wrong_side ∷ no_ratio ∷ []
unfolding validate_prices_detailed check_price
wrong_side = refl
