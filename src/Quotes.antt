-- ===== src/Quotes.antt =====
-- app/services/tiered.py: the quote cache of the first tier and the events of the second. Prices are
-- hundredths and the middle of a quote is kept doubled, so that it is a whole number: half a hundredth
-- has three digits, so that the rounding of `PriceTick.mid` to three leaves it as it is. Times are
-- seconds.
-- A quote that `validate_quote` or `normalized_event_time` refuses is none.
mod Tests
pub mod Buckets
use vi_xauusd.Prelude.{
  ltb, leb, ◌==◌, if◌then◌else◌, is_some, or_else, and_some, length, ℕ, zero, suc, ◌+◌, ◌-◌, ◌*◌,
  ◌%◌, String, Bool, true, false, not, ◌&&◌, ◌||◌, Option, none, some, List, [], ◌∷◌, ◌++◌,
}
use vi_xauusd.Prelude.Dict.{Dict, get, put}

pub record Tick : Type 0 where
  pub bid : ℕ
  pub ask : ℕ
  pub quote_time : Option ℕ

pub record QuoteCache : Type 0 where
  pub last_tick : Option Tick
  pub previous_tick : Option Tick
  pub last_time : ℕ
  pub last_update : Option ℕ
  pub bucket_start : Option ℕ
  pub bucket_hi : Option ℕ
  pub bucket_lo : Option ℕ
  pub closed_ranges : List ℕ
  pub duplicate_tick_count : ℕ
  pub out_of_order_tick_count : ℕ

-- `QuoteCache()`
abbrev pub empty_cache : QuoteCache
empty_cache = record {
  last_tick = none;
  previous_tick = none;
  last_time = 0;
  last_update = none;
  bucket_start = none;
  bucket_hi = none;
  bucket_lo = none;
  closed_ranges = [];
  duplicate_tick_count = 0;
  out_of_order_tick_count = 0;
}

abbrev pub max_buckets : ℕ
max_buckets = 40

abbrev pub mid : Tick → ℕ
mid t = t.bid + t.ask

abbrev pub is_valid : Tick → Bool
is_valid t = ltb 0 t.bid && ltb 0 t.ask && leb t.bid t.ask

-- The five minutes that a time lies in.
unfoldable pub bucket_of : ℕ → ℕ
bucket_of now = now - now % 300

-- `deque(maxlen=…)`, the newest first.
abbrev take : ℕ → List ℕ → List ℕ
take zero xs = []
take (suc n) [] = []
take (suc n) (x ∷ xs) = x ∷ take n xs

abbrev pub greater : ℕ → ℕ → ℕ
greater a b = if ltb a b then b else a

abbrev pub lesser : ℕ → ℕ → ℕ
lesser a b = if ltb b a then b else a

abbrev pub is_current_bucket : QuoteCache → ℕ → Bool
is_current_bucket c now = and_some c.bucket_start (λ b. b == bucket_of now)

-- The range of the bucket that ends, if there is one.
unfoldable pub close_range : Option ℕ → Option ℕ → List ℕ → List ℕ
close_range (some hi) (some lo) ranges = take max_buckets ((hi - lo) ∷ ranges)
close_range _ _ ranges = ranges

-- The tick is accepted.
unfoldable pub store : QuoteCache → ℕ → ℕ → Tick → QuoteCache
unfolding close_range
store c now event_time t =
    let here = is_current_bucket c now in
    record c {
      previous_tick = c.last_tick;
      last_tick = some t;
      last_time = event_time;
      last_update = some now;
      bucket_start = some (bucket_of now);
      bucket_hi = some (if here then greater (or_else c.bucket_hi (mid t)) (mid t) else mid t);
      bucket_lo = some (if here then lesser (or_else c.bucket_lo (mid t)) (mid t) else mid t);
      closed_ranges =
          if here then c.closed_ranges else close_range c.bucket_hi c.bucket_lo c.closed_ranges;
    }

abbrev pub is_repeated : QuoteCache → ℕ → Tick → Bool
is_repeated c event_time t =
    event_time == c.last_time && and_some c.last_tick (λ l. l.bid == t.bid && l.ask == t.ask)

unfoldable pub add_at : QuoteCache → ℕ → Tick → ℕ → QuoteCache × Bool
unfolding store
add_at c now t event_time =
    if is_some c.last_tick && ltb event_time c.last_time
    then (record c { out_of_order_tick_count = c.out_of_order_tick_count + 1 }, false)
    else if is_repeated c event_time t
    then (record c { duplicate_tick_count = c.duplicate_tick_count + 1 }, false)
    else (store c now event_time t, true)

-- None is the ValueError that `add` raises.
unfoldable pub add_time : QuoteCache → ℕ → Tick → Option ℕ → Option (QuoteCache × Bool)
add_time c now t none = none
add_time c now t (some event_time) = if is_valid t then some (add_at c now t event_time) else none

unfoldable pub add : QuoteCache → ℕ → Tick → Option (QuoteCache × Bool)
unfolding add_time
add c now t = add_time c now t t.quote_time

unfoldable pub fresh_tick : QuoteCache → ℕ → ℕ → Option Tick
fresh_tick c now max_age =
    if is_some c.last_tick
      && and_some c.last_update (λ u. leb (greater (now - u) (now - c.last_time)) max_age)
    then c.last_tick
    else none

unfoldable pub current_bucket_range : QuoteCache → Option ℕ
current_bucket_range c =
    if is_some c.bucket_hi && is_some c.bucket_lo
    then some (or_else c.bucket_hi 0 - or_else c.bucket_lo 0)
    else none

unfoldable pub sum : List ℕ → ℕ
sum [] = 0
sum (x ∷ xs) = x + sum xs

-- The sum of the newest `n` closed ranges and how many they are; too few are none.
unfoldable pub avg_closed_range : QuoteCache → ℕ → Option (ℕ × ℕ)
unfolding sum
avg_closed_range c n =
    let rows = take n c.closed_ranges in
    if ltb (length rows) 10 then none else some (sum rows, length rows)

-- `EventCooldown.allow`, on the times at which the events fired.
unfoldable pub allow : ℕ → ℕ → String → Dict ℕ → Bool × Dict ℕ
allow now cooldown key fired =
    if and_some (get fired key) (λ last. ltb now (last + cooldown))
    then (false, fired)
    else (true, put fired key now)

pub data LevelKind : Type 0 where
  sup_zone : LevelKind
  res_zone : LevelKind
  swing_high_15m : LevelKind
  swing_low_15m : LevelKind

pub record Level : Type 0 where
  pub kind : LevelKind
  pub level_id : String
  pub price_low : ℕ
  pub price_high : ℕ

abbrev pub distance : ℕ → ℕ → ℕ
distance a b = (a - b) + (b - a)

abbrev pub is_zone : LevelKind → Bool
is_zone sup_zone = true
is_zone res_zone = true
is_zone _ = false

-- The distance is 0 inside; `touch` is the limit in millionths of the price.
unfoldable pub touches : ℕ → ℕ → Level → Bool
touches touch price l =
    is_zone l.kind
    && ((leb l.price_low price && leb price l.price_high)
        || leb (lesser (distance price l.price_low) (distance price l.price_high) * 1000000)
            (touch * price))

-- Asks the cooldown only if the test holds.
unfoldable pub fire : Bool → ℕ → ℕ → String → Dict ℕ × List String → Dict ℕ × List String
unfolding allow
fire test now cooldown key (fired, events) =
    if not test
    then (fired, events)
    else let (allowed, fired') = allow now cooldown key fired in
      (fired', if allowed then events ++ key ∷ [] else events)

unfoldable pub touch_events :
    (String → String) → ℕ → ℕ → ℕ → ℕ → List Level → Dict ℕ × List String → Dict ℕ × List String
unfolding touches fire
touch_events key touch price now cooldown [] s = s
touch_events key touch price now cooldown (l ∷ ls) s =
    touch_events key touch price now cooldown ls
      (fire (touches touch price l) now cooldown (key l.level_id) s)

-- The last level of a kind.
unfoldable pub last_swing : (LevelKind → Bool) → Option ℕ → List Level → Option ℕ
last_swing p found [] = found
last_swing p found (l ∷ ls) = last_swing p (if p l.kind then some l.price_low else found) ls

abbrev is_swing_high : LevelKind → Bool
is_swing_high swing_high_15m = true
is_swing_high _ = false

abbrev is_swing_low : LevelKind → Bool
is_swing_low swing_low_15m = true
is_swing_low _ = false

-- `cur > avg * mult`, with the multiple in percent.
unfoldable pub is_anomaly : QuoteCache → ℕ → Bool
unfolding current_bucket_range avg_closed_range
is_anomaly c mult =
    and_some (current_bucket_range c) (λ cur.
      and_some (avg_closed_range c 20) (λ a. ltb 0 a.0 && ltb (a.0 * mult) (cur * a.1 * 100)))

-- `check_structure_events`; `key` makes the event key of a level.
unfoldable pub check_structure_events :
    (String → String) → ℕ → ℕ → ℕ → ℕ → ℕ → List Level → QuoteCache → Dict ℕ → Dict ℕ × List String
unfolding touch_events last_swing is_anomaly fire
check_structure_events key touch mult price now cooldown levels c fired =
    let s1 = touch_events key touch price now cooldown levels (fired, []) in
    let s2 =
      fire (and_some (last_swing is_swing_high none levels) (λ h. ltb h price)) now cooldown
        "break:high" s1 in
    let s3 =
      fire (and_some (last_swing is_swing_low none levels) (λ l. ltb price l)) now cooldown
        "break:low" s2 in
    fire (is_anomaly c mult) now cooldown "anomaly" s3
