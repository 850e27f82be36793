-- ===== src/Candles/Tests.antt =====
-- The candle services at concrete inputs.
use vi_xauusd.Prelude.{
  length, ℕ, ◌+◌, ◌≡◌, refl, Bool, true, false, none, some, List, [], ◌∷◌, arith,
}
use vi_xauusd.Calendar.{Zone, h4}
use vi_xauusd.Candles.{
  Candle, row_of, find, update, store_found, store_candles, load_candles_from_db,
}
use vi_xauusd.Candles.Store.{put_all, of_key, find-store_candles}
use vi_xauusd.Candles.Load.{IsSeries, load-store}
use vi_xauusd.Candles.Aggregate.{
  intraday, bucket_key, insert_candle, oldest_first, add_to, fill, merge_bucket, aggregate_candles,
}
use vi_xauusd.Candles.Closed.{Bar}

abbrev hourly : ℕ → Bool → Candle
hourly t is_closed = record {
  key = record { symbol = "XAUUSD"; timeframe = "1H"; open_time = t; data_provider = "oanda" };
  close_time = t + 3600;
  open_price = 240000 + t;
  high = 240100 + t;
  low = 239900 + t;
  close_price = 240050 + t;
  volume = 7;
  bid_close = none;
  ask_close = none;
  spread = some 20;
  is_closed = is_closed;
}

abbrev morning : List Candle
morning = hourly 3600 true ∷ hourly 7200 true ∷ hourly 10800 false ∷ []

find-store_candles_example :
    find (hourly 7200 true).key (store_candles 9 (row_of 5 (hourly 7200 false) ∷ []) morning).0
    ≡ put_all 9
        (find (hourly 7200 true).key (row_of 5 (hourly 7200 false) ∷ []))
        (of_key (hourly 7200 true).key morning)
find-store_candles_example =
    find-store_candles (hourly 7200 true).key 9 (row_of 5 (hourly 7200 false) ∷ []) morning

morning-IsSeries : IsSeries "XAUUSD" "1H" "oanda" morning
morning-IsSeries = (
  refl,
  refl,
  refl,
  (omega arith, (omega arith, tt)),
  (refl, refl, refl, (omega arith, tt), (refl, refl, refl, tt, tt)),
)

load-store_example :
    (load_candles_from_db "1H" 300 "XAUUSD" (store_candles 9 [] morning).0 ≡ morning)
    × ((store_candles 9 [] morning).1 ≡ length morning)
load-store_example = load-store 9 300 "XAUUSD" "1H" "oanda" morning morning-IsSeries (omega arith)

-- A closed row takes the figures of a candle that is still open, and is open again.
reopened :
    find
      (hourly 7200 true).key
      (store_candles 9 (row_of 5 (hourly 7200 true) ∷ []) (hourly 7200 false ∷ [])).0
    ≡ some (row_of 9 (hourly 7200 false))
unfolding store_candles store_found find update
reopened = refl

abbrev utc : Zone
utc = record { local = λ t. t; instant = λ t. t }

one_bucket : length (aggregate_candles utc (intraday h4) "4H" 20000 morning) ≡ 1
unfolding aggregate_candles fill add_to bucket_key oldest_first insert_candle merge_bucket
one_bucket = refl

abbrev bars : List Bar
bars =
    record {
      times = some (900, 1800);
      bar_closed = true;
      bar_price = 240000;
      bar_provider = "oanda";
    }
    ∷ record { times = none; bar_closed = true; bar_price = 1; bar_provider = "" }
    ∷ record {
      times = some (1800, 2700);
      bar_closed = true;
      bar_price = 240010;
      bar_provider = "oanda";
    }
    ∷ record {
      times = some (2700, 3600);
      bar_closed = false;
      bar_price = 240020;
      bar_provider = "oanda";
    }
    ∷ []
