-- ===== src/LiveBias/Tests.antt =====
-- app/engines/live_bias.py at concrete inputs.
use vi_xauusd.Prelude.{ℕ, ◌≡◌, refl, true, false, none, some, [], ◌∷◌}
use vi_xauusd.Prelude.Rounding.{}
use vi_xauusd.LiveBias.Level.{long, short, dynamic_level}
use vi_xauusd.LiveBias.{
  Settings, reversal_candidate, Look, before, is_beyond, challenged, beyond_buffer,
  closed_invalidated, closed_restored, is_new_close, persistent, decide, resolve_direction_conflict,
}
use vi_xauusd.LiveBias.Direction.{resolve-watch}

abbrev limits : Settings
limits = record {
  buffer_atr = 15;
  min_abs = 50;
  strong_displacement_atr = 80;
  persistence_ticks = 3;
  stale_age_minutes = 45;
  origin_max_displacement_atr = 100;
}

-- Long with the level at 4600, an ATR of 10 and the price given.
abbrev long_at : ℕ → Look
long_at price = record {
  side = long;
  live_price = some price;
  closed_price = some 460900;
  closed_time = some 900;
  evaluated_at = 1000;
  atr15 = some 1000;
  level = some 460000;
  volume_price_state = "UNAVAILABLE";
  data_health = "HEALTHY";
}

abbrev broken : Look
broken = record (long_at 459500) { closed_price = some 459600; closed_time = some 1800 }

resolve-watch_example :
    (short ≡ short)
    × ((resolve_direction_conflict limits none broken).0.live_state ≡ reversal_candidate)
    × (closed_invalidated limits broken ≡ true)
    × (is_new_close broken.closed_time (before broken.side none).3 ≡ true)
unfolding resolve_direction_conflict decide persistent beyond_buffer closed_invalidated challenged
    is_beyond closed_restored is_new_close
resolve-watch_example = resolve-watch limits none broken short refl refl

-- The nearer of two setups gives the level.
nearer_setup :
    dynamic_level long
      (some 460800)
      (record {
        direction = long;
        is_over = false;
        invalidation_price = some 459000;
        zone = some (459500, 459900);
      }
        ∷ record {
          direction = long;
          is_over = false;
          invalidation_price = some 460000;
          zone = some (461000, 460500);
        }
        ∷ [])
      (record { defense_level = none; defense_side = none; runtime_levels = [] })
    ≡ some 460000
unfolding dynamic_level
nearer_setup = refl
