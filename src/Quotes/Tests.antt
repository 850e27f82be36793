-- ===== src/Quotes/Tests.antt =====
-- app/services/tiered.py at concrete inputs.
use vi_xauusd.Prelude.{length, ℕ, ◌+◌, ◌≤◌, ◌≡◌, refl, some, List, [], ◌∷◌}
use vi_xauusd.Prelude.Dict.{get, put}
use vi_xauusd.Quotes.{
  Tick, empty_cache, max_buckets, bucket_of, add_at, add, current_bucket_range, sup_zone,
  swing_high_15m, Level, check_structure_events,
}
use vi_xauusd.Quotes.Buckets.{range_of, IsForward, add_all, range-add_all}

abbrev quote : ℕ → ℕ → Tick
quote price t = record { bid = price; ask = price + 20; quote_time = some t }

-- The third quote is late and the fourth lies in the next bucket.
abbrev quotes : List (ℕ × Tick)
quotes =
    (600, quote 240000 599)
    ∷ (610, quote 240100 609)
    ∷ (620, quote 230000 500)
    ∷ (630, quote 239900 629)
    ∷ []

range-add_all_example :
    (current_bucket_range (add_all quotes (empty_cache, [])).0
      ≡ range_of (add_all quotes (empty_cache, [])).1)
    × IsForward (add_all quotes (empty_cache, [])).1
    × (length (add_all quotes (empty_cache, [])).0.closed_ranges ≤ max_buckets)
range-add_all_example = range-add_all quotes

quotes_range : current_bucket_range (add_all quotes (empty_cache, [])).0 ≡ some 400
unfolding add_all add add_at bucket_of current_bucket_range
quotes_range = refl

abbrev zones : List Level
zones =
    record { kind = sup_zone; level_id = "S1"; price_low = 239900; price_high = 240100 }
    ∷ record { kind = swing_high_15m; level_id = "H"; price_low = 239990; price_high = 239990 }
    ∷ []

-- The second look within the cooldown is silent.
second_look :
    (check_structure_events
      (λ t. t)
      500
      300
      240000
      700
      3600
      zones
      empty_cache
      (check_structure_events (λ t. t) 500 300 240000 600 3600 zones empty_cache []).0).1
    ≡ []
unfolding check_structure_events get put
second_look = refl
