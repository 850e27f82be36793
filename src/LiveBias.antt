-- ===== src/LiveBias.antt =====
-- app/engines/live_bias.py: the live price against the confirmed direction. Prices are ticks of 0.01,
-- factors of the ATR and the buffer are in hundredths, times are seconds; a value that is not a number
-- is none, and a price is above 0. The texts, the rounded figures, the state of the setup and the
-- names in the events are left out.
pub mod Level
pub mod Direction
mod Tests
use vi_xauusd.Prelude.{
  ltb, leb, ◌==◌, if◌then◌else◌, is_some, or_else, or_option, and_some, ℕ, suc, ◌+◌, ◌-◌, ◌*◌, max,
  String, Bool, true, false, not, ◌&&◌, ◌||◌, Option, none, some, List, [], ◌∷◌, str_eq,
}
use vi_xauusd.Prelude.Rounding.{}
use vi_xauusd.LiveBias.Level.{Side, long, short, no_side, Candidate, Lines, is_side, dynamic_level}

pub record Settings : Type 0 where
  pub buffer_atr : ℕ
  pub min_abs : ℕ
  pub strong_displacement_atr : ℕ
  pub persistence_ticks : ℕ
  pub stale_age_minutes : ℕ
  pub origin_max_displacement_atr : ℕ

pub data LiveState : Type 0 where
  aligned weakening invalidating reversal_candidate suspended : LiveState

-- A side, a side that is only watched, or neither.
pub data Bias : Type 0 where
  allow watch : Side → Bias
  neutral : Bias

pub data Momentum : Type 0 where
  strong_long strong_short no_momentum : Momentum

pub data Freshness : Type 0 where
  stale_bias challenged_bias fresh_bias : Freshness

pub record Look : Type 0 where
  pub side : Side
  pub live_price : Option ℕ
  pub closed_price : Option ℕ
  pub closed_time : Option ℕ
  pub evaluated_at : ℕ
  pub atr15 : Option ℕ
  -- What `_dynamic_level` has found.
  pub level : Option ℕ
  pub volume_price_state : String
  pub data_health : String

pub record Snapshot : Type 0 where
  pub live_state : LiveState
  pub execution : Bias
  pub last_closed : Option ℕ
  pub origin : Option ℕ
  pub breach_count : ℕ
  pub version : ℕ
  pub freshness : Freshness
  pub allow_long : Bool
  pub allow_short : Bool
  pub momentum : Momentum

pub data Event : Type 0 where
  side_invalidating side_restored : Side → Event
  side_watch : Bias → Event
  live_bias_changed : Event

-- What is read of a snapshot that is not there yet.
abbrev pub before : Side → Option Snapshot → LiveState × Bias × ℕ × Option ℕ × ℕ
before side none = (aligned, allow side, 0, none, 0)
before side (some p) = (p.live_state, p.execution, p.breach_count, p.last_closed, p.version)

abbrev pub old_origin : Option Snapshot → Option ℕ
old_origin none = none
old_origin (some p) = p.origin

abbrev pub atr_of : Look → ℕ
atr_of l = max (or_else l.atr15 1) 1

-- The buffer in hundredths of a tick.
abbrev pub buffer_of : Settings → Look → ℕ
buffer_of c l = max (atr_of l * c.buffer_atr) (100 * c.min_abs)

-- The price lies beyond the level by more than a buffer, in hundredths of a tick.
unfoldable pub is_beyond : Side → ℕ → ℕ → ℕ → Bool
is_beyond long buffer level price = ltb (100 * price + buffer) (100 * level)
is_beyond short buffer level price = ltb (100 * level + buffer) (100 * price)
is_beyond no_side buffer level price = false

abbrev pub holds : Side → ℕ → ℕ → Bool
holds long level price = leb level price
holds short level price = leb price level
holds no_side level price = false

-- A test of a price against the level, where the live price is there too.
abbrev pub at_level : Look → Option ℕ → (ℕ → ℕ → Bool) → Bool
at_level l price test =
    is_some l.live_price && and_some l.level (λ v. and_some price (λ p. test v p))

unfoldable pub challenged : Look → Bool
challenged l = at_level l l.live_price (is_beyond l.side 0)

unfoldable pub beyond_buffer : Settings → Look → Bool
beyond_buffer c l = at_level l l.live_price (is_beyond l.side (buffer_of c l))

unfoldable pub closed_invalidated : Settings → Look → Bool
closed_invalidated c l = at_level l l.closed_price (is_beyond l.side (buffer_of c l))

unfoldable pub closed_restored : Look → Bool
closed_restored l = at_level l l.closed_price (holds l.side)

unfoldable pub is_new_close : Option ℕ → Option ℕ → Bool
is_new_close none _ = false
is_new_close (some t) none = true
is_new_close (some t) (some u) = not (t == u)

abbrev pub origin_of : Option Snapshot → Look → Option ℕ
origin_of p l = or_option (old_origin p) (or_option l.closed_price l.live_price)

-- `displacement >= k`, and `displacement <= -k`.
abbrev pub has_risen : ℕ → ℕ → Option ℕ → Option ℕ → Bool
has_risen k atr (some live) (some origin) = leb (100 * origin + k * atr) (100 * live)
has_risen k atr _ _ = k == 0

abbrev pub has_fallen : ℕ → ℕ → Option ℕ → Option ℕ → Bool
has_fallen k atr (some live) (some origin) = leb (100 * live + k * atr) (100 * origin)
has_fallen k atr _ _ = k == 0

-- `adverse_displacement >= k`
unfoldable pub is_displaced : Side → ℕ → ℕ → Option ℕ → Option ℕ → Bool
is_displaced long k atr live origin = has_fallen k atr live origin
is_displaced short k atr live origin = has_risen k atr live origin
is_displaced no_side k atr live origin = has_fallen k atr live origin || has_risen k atr live origin

abbrev pub volume_adverse : Side → String → Bool
volume_adverse long v = str_eq v "VOLUME_CONFIRMED_DROP" || str_eq v "BEARISH_BREAKOUT_VOLUME"
volume_adverse short v = str_eq v "VOLUME_CONFIRMED_RISE" || str_eq v "BULLISH_BREAKOUT_VOLUME"
volume_adverse no_side v = false

abbrev pub is_dead_feed : String → Bool
is_dead_feed h = str_eq h "STALE" || str_eq h "FAILED" || str_eq h "DISCONNECTED"

abbrev pub opposite : Side → Side
opposite long = short
opposite short = long
opposite no_side = long

abbrev pub was_challenged : LiveState → Bool
was_challenged invalidating = true
was_challenged weakening = true
was_challenged _ = false

abbrev pub aligned_bias : Side → Bias
aligned_bias no_side = neutral
aligned_bias s = allow s

-- `consecutiveBreachCount`
abbrev pub count_of : Bool → ℕ → ℕ
count_of beyond old = if beyond then suc old else 0

unfoldable pub persistent : Settings → Option Snapshot → Look → Bool
persistent c p l =
    let beyond = beyond_buffer c l in
    beyond
    && (leb c.persistence_ticks (count_of beyond (before l.side p).2)
        || (is_displaced l.side c.strong_displacement_atr (atr_of l) l.live_price (origin_of p l)
            || volume_adverse l.side l.volume_price_state))

-- The live state and the direction that may be executed.
unfoldable pub decide : Settings → Option Snapshot → Look → LiveState × Bias
decide c p l =
    let old = before l.side p in
    let new_closed = is_new_close l.closed_time old.3 in
    if is_dead_feed l.data_health
    then (suspended, neutral)
    else if closed_invalidated c l && new_closed
    then (reversal_candidate, watch (opposite l.side))
    else if persistent c p l
    then (invalidating, neutral)
    else if challenged l
    then (weakening, watch l.side)
    else if was_challenged old.0 && new_closed && closed_restored l
    then (aligned, allow l.side)
    else (aligned, aligned_bias l.side)

abbrev pub same_state : LiveState → LiveState → Bool
same_state aligned aligned = true
same_state weakening weakening = true
same_state invalidating invalidating = true
same_state reversal_candidate reversal_candidate = true
same_state suspended suspended = true
same_state _ _ = false

abbrev pub same_bias : Bias → Bias → Bool
same_bias (allow s) (allow t) = is_side s t
same_bias (watch s) (watch t) = is_side s t
same_bias neutral neutral = true
same_bias _ _ = false

abbrev pub is_for : Side → Bias → Bool
is_for s (allow t) = is_side s t
is_for s (watch t) = is_side s t
is_for s neutral = false

abbrev pub stops_entries : LiveState → Bool
stops_entries invalidating = true
stops_entries suspended = true
stops_entries _ = false

unfoldable pub freshness_of : Settings → Option Snapshot → Look → LiveState → Freshness
freshness_of c p l state =
    if stops_entries state
      || (and_some l.closed_time (λ t. leb (60 * c.stale_age_minutes) (l.evaluated_at - t))
          && is_displaced l.side c.origin_max_displacement_atr (atr_of l) l.live_price
              (origin_of p l))
    then stale_bias
    else if same_state state weakening
    then challenged_bias
    else fresh_bias

unfoldable pub momentum_of : Settings → Option Snapshot → Look → Momentum
momentum_of c p l =
    let k = c.strong_displacement_atr in
    if beyond_buffer c l || closed_invalidated c l
    then (if is_side l.side long then strong_short else strong_long)
    else if has_risen k (atr_of l) l.live_price (origin_of p l)
    then strong_long
    else if has_fallen k (atr_of l) l.live_price (origin_of p l)
    then strong_short
    else no_momentum

abbrev pub event_of : Side → LiveState → LiveState → Bias → Event
event_of side old invalidating b = side_invalidating side
event_of side old reversal_candidate b = side_watch b
event_of side old aligned b = if was_challenged old then side_restored side else live_bias_changed
event_of side old state b = live_bias_changed

unfoldable pub resolve_direction_conflict :
    Settings → Option Snapshot → Look → Snapshot × List Event
resolve_direction_conflict c p l =
    let old = before l.side p in
    let d = decide c p l in
    let changed = not (same_state d.0 old.0) || not (same_bias d.1 old.1) in
    let new_closed = is_new_close l.closed_time old.3 in
    (
      record {
        live_state = d.0;
        execution = d.1;
        last_closed = l.closed_time;
        origin = origin_of p l;
        breach_count = count_of (beyond_buffer c l) old.2;
        version = if changed || new_closed then suc old.4 else old.4;
        freshness = freshness_of c p l d.0;
        allow_long = is_for long d.1 && not (same_state d.0 suspended);
        allow_short = is_for short d.1 && not (same_state d.0 suspended);
        momentum = momentum_of c p l;
      },
      (if changed then event_of l.side old.0 d.0 d.1 ∷ [] else []),
    )

unfoldable pub evaluate_live_bias :
    Settings → Option Snapshot → Look → List Candidate → Lines → Snapshot × List Event
evaluate_live_bias c p l candidates x =
    resolve_direction_conflict c p
      (record l { level = dynamic_level l.side l.live_price candidates x })
