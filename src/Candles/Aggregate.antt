-- ===== src/Candles/Aggregate.antt =====
-- `aggregate_candles`: candles of a longer timeframe out of shorter ones. The trading day of a candle
-- is that of the calendar, and `now` the time of the call.
use vi_xauusd.Prelude.{
  leb, ◌==◌, if◌then◌else◌, ℕ, ◌+◌, ◌-◌, ◌*◌, ◌/◌, ◌%◌, min, max, String, ◌≡◌, refl, ap, ◌∙◌, Bool,
  true, ◌&&◌, List, [], ◌∷◌, ◌++◌, map, arith,
}
use vi_xauusd.Candles.{Candle}
use vi_xauusd.Calendar.{Zone, trading_day, trading_day_bounds, Intraday, minutes_of}

pub data Target : Type 0 where
  intraday : Intraday → Target
  daily weekly : Target

unfoldable pub bucket_key : Zone → Target → Candle → ℕ
unfolding trading_day
bucket_key z daily c = trading_day z c.key.open_time
bucket_key z weekly c = let d = trading_day z c.key.open_time in d - d % 7
bucket_key z (intraday tf) c =
    let t = c.key.open_time in
    t - ((t / 3600 % 24 * 60 + t / 60 % 60) % minutes_of tf * 60 + t % 60)

-- `sorted(candles, key=lambda x: x.open_time)`
unfoldable pub insert_candle : Candle → List Candle → List Candle
insert_candle c [] = c ∷ []
insert_candle c (x ∷ xs) =
    let rest = insert_candle c xs in
    if leb c.key.open_time x.key.open_time then c ∷ x ∷ xs else x ∷ rest

unfoldable pub oldest_first : List Candle → List Candle
unfolding insert_candle
oldest_first [] = []
oldest_first (c ∷ cs) = insert_candle c (oldest_first cs)

-- A bucket: its key, its first candle and the rest, in order.
abbrev pub Bucket : Type 0
Bucket = ℕ × Candle × List Candle

-- `buckets[key].append(c)`, with a new bucket at the end of `order`.
unfoldable pub add_to : ℕ → Candle → List Bucket → List Bucket
add_to k c [] = (k, c, []) ∷ []
add_to k c ((j, first, rest) ∷ bs) =
    let others = add_to k c bs in
    if j == k then (j, first, rest ++ (c ∷ [])) ∷ bs else (j, first, rest) ∷ others

unfoldable pub fill : Zone → Target → List Bucket → List Candle → List Bucket
unfolding add_to bucket_key
fill z target bs [] = bs
fill z target bs (c ∷ cs) = fill z target (add_to (bucket_key z target c) c bs) cs

abbrev pub last_candle : Candle → List Candle → Candle
last_candle c [] = c
last_candle c (d ∷ ds) = last_candle d ds

unfoldable pub total_volume : List Candle → ℕ
total_volume [] = 0
total_volume (c ∷ cs) = c.volume + total_volume cs

abbrev pub highest : ℕ → List Candle → ℕ
highest h [] = h
highest h (c ∷ cs) = max c.high (highest h cs)

abbrev pub lowest : ℕ → List Candle → ℕ
lowest l [] = l
lowest l (c ∷ cs) = min c.low (lowest l cs)

abbrev pub all_closed : List Candle → Bool
all_closed [] = true
all_closed (c ∷ cs) = c.is_closed && all_closed cs

unfoldable pub bucket_close : Zone → Target → ℕ → Candle → ℕ
unfolding trading_day_bounds
bucket_close z daily k last = (trading_day_bounds z k).1
bucket_close z weekly k last = (trading_day_bounds z (k + 4)).1
bucket_close z (intraday tf) k last = last.close_time

unfoldable pub merge_bucket : Zone → Target → String → ℕ → Bucket → Candle
unfolding bucket_close total_volume
merge_bucket z target name now (k, first, rest) =
    let last = last_candle first rest in
    let close = bucket_close z target k last in
    record {
      key = record {
        symbol = first.key.symbol;
        timeframe = name;
        open_time = first.key.open_time;
        data_provider = first.key.data_provider;
      };
      close_time = close;
      open_price = first.open_price;
      high = highest first.high rest;
      low = lowest first.low rest;
      close_price = last.close_price;
      volume = total_volume (first ∷ rest);
      bid_close = last.bid_close;
      ask_close = last.ask_close;
      spread = last.spread;
      is_closed = all_closed (first ∷ rest) && leb close now;
    }

-- `name` is the text of the target.
unfoldable pub aggregate_candles : Zone → Target → String → ℕ → List Candle → List Candle
unfolding fill oldest_first merge_bucket
aggregate_candles z target name now cs =
    map (merge_bucket z target name now) (fill z target [] (oldest_first cs))

-- No volume is lost.
bucket_volume : List Bucket → ℕ
bucket_volume [] = 0
bucket_volume ((k, first, rest) ∷ bs) = total_volume (first ∷ rest) + bucket_volume bs

total_volume-append :
    (cs ds : List Candle) → total_volume (cs ++ ds) ≡ total_volume cs + total_volume ds
unfolding total_volume
total_volume-append [] ds = omega arith
total_volume-append (c ∷ cs) ds = omega (arith, total_volume-append cs ds)

volume-add_to :
    (k : ℕ) (c : Candle) (bs : List Bucket)
    → bucket_volume (add_to k c bs) ≡ c.volume + bucket_volume bs
unfolding add_to bucket_volume total_volume
volume-add_to k c [] = omega arith
volume-add_to k c ((j, first, rest) ∷ bs) =
    ground (arith, volume-add_to k c bs, total_volume-append rest (c ∷ []))

volume-fill :
    (z : Zone) (target : Target) (bs : List Bucket) (cs : List Candle)
    → bucket_volume (fill z target bs cs) ≡ bucket_volume bs + total_volume cs
unfolding fill total_volume
volume-fill z target bs [] = omega arith
volume-fill z target bs (c ∷ cs) = omega (
  arith,
  volume-fill z target (add_to (bucket_key z target c) c bs) cs,
  volume-add_to (bucket_key z target c) c bs,
)

volume-insert :
    (c : Candle) (cs : List Candle) → total_volume (insert_candle c cs) ≡ c.volume + total_volume cs
unfolding insert_candle total_volume
volume-insert c [] = refl
volume-insert c (x ∷ xs) = ground (arith, volume-insert c xs)

volume-sort : (cs : List Candle) → total_volume (oldest_first cs) ≡ total_volume cs
unfolding oldest_first total_volume
volume-sort [] = refl
volume-sort (c ∷ cs) = omega (arith, volume-insert c (oldest_first cs), volume-sort cs)

volume-merge :
    (z : Zone) (target : Target) (name : String) (now : ℕ) (bs : List Bucket)
    → total_volume (map (merge_bucket z target name now) bs) ≡ bucket_volume bs
unfolding total_volume merge_bucket bucket_volume
volume-merge z target name now [] = refl
volume-merge z target name now ((k, first, rest) ∷ bs) =
    ap (λ (v : ℕ). total_volume (first ∷ rest) + v) (volume-merge z target name now bs)

-- Whatever the order of the candles and whatever the target, the traded volume of the longer candles
-- is that of the candles they are made of: none is lost at an edge and none counts twice.
pub volume-aggregate :
    (z : Zone) (target : Target) (name : String) (now : ℕ) (cs : List Candle)
    → total_volume (aggregate_candles z target name now cs) ≡ total_volume cs
unfolding aggregate_candles bucket_volume
volume-aggregate z target name now cs =
    volume-merge z target name now (fill z target [] (oldest_first cs))
    ∙ volume-fill z target [] (oldest_first cs)
    ∙ zero-add (total_volume (oldest_first cs))
    ∙ volume-sort cs
  where
    zero-add : (n : ℕ) → 0 + n ≡ n
    zero-add n = omega arith
