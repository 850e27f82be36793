-- ===== src/ShortAlert/Evaluate.antt =====
-- app/engines/short_alert_state.py: `evaluate_short_alert`.
use vi_xauusd.Prelude.{
  ltb, leb, ◌==◌, if◌then◌else◌, or_else, or_option, and_some, ℕ, ◌+◌, ◌-◌, ◌/◌, Bool, true, false,
  not, ◌&&◌, ◌||◌, Option, none, some, str_eq,
}
use vi_xauusd.ShortAlert.State.{
  AlertStatus, short_watch, bearish_watch, short_entry_ready, short_invalidated, short_confirmed,
  BearishEvent, no_event, intrabar_breach, breakdown_confirmed, retest_rejected,
  bearish_continuation, entry_ready, false_breakout, SupportState, breach_state,
  confirmed_breakdown, rejected_state, failed_breakdown, AlertState, Level, Snapshot, Blocked,
  no_support_level, AlertEvaluation, initial, is_empty,
}
use vi_xauusd.ShortAlert.Zones.{support_level, greatest, validate_alert_zones}

abbrev pub is_active : AlertStatus → Bool
is_active bearish_watch = true
is_active short_entry_ready = true
is_active _ = false

abbrev pub is_failed : SupportState → Bool
is_failed failed_breakdown = true
is_failed _ = false

abbrev pub is_confirmed_state : SupportState → Bool
is_confirmed_state confirmed_breakdown = true
is_confirmed_state rejected_state = true
is_confirmed_state _ = false

abbrev pub is_rejected : SupportState → Bool
is_rejected rejected_state = true
is_rejected _ = false

abbrev pub is_breakdown : SupportState → Bool
is_breakdown confirmed_breakdown = true
is_breakdown _ = false

abbrev pub is_breach : SupportState → Bool
is_breach breach_state = true
is_breach _ = false

-- `SHORT_INVALIDATED` and `SHORT_WATCH` are kept when nothing happens.
abbrev pub is_kept : AlertStatus → Bool
is_kept short_invalidated = true
is_kept short_watch = true
is_kept s = is_active s

-- A close above the level that invalidates the bearish view.
unfoldable pub reclaimed : AlertState → Snapshot → Bool
reclaimed p n =
    is_active p.status
    && not (is_empty n.closed)
    && and_some n.closed_price (λ c. and_some p.invalidation_level (λ v. ltb v c))

unfoldable pub short_ready : AlertState → Snapshot → Bool
short_ready p n =
    is_active p.status
    && and_some n.entry_plan
        (λ e. e.is_short && e.is_ready && e.has_all_prices && leb 150 e.risk_reward)

-- `max(buffer, 0.01)`
abbrev pub tolerance : ℕ → ℕ
tolerance buffer = greatest 1 buffer

-- `newer_level or lower_close`
unfoldable pub continues : AlertState → Snapshot → ℕ → ℕ → Bool
continues p n level buffer =
    (is_active p.status && and_some p.level (λ old. ltb (level + tolerance buffer) old))
    || (is_active p.status
        && is_breakdown n.support_state
        && and_some n.closed_price
            (λ c. and_some p.last_closed_price (λ old. ltb (c + tolerance buffer) old)))

abbrev pub truthy_or : Option ℕ → ℕ → ℕ
truthy_or none d = d
truthy_or (some n) d = if n == 0 then d else n

pub data Choice : Type 0 where
  chosen : BearishEvent → AlertStatus → ℕ → Choice
  reset : Choice

-- The ladder that picks the event, the status and the level.
unfoldable pub choose : AlertState → Snapshot → ℕ → ℕ → Choice
unfolding reclaimed continues short_ready
choose p n level buffer =
    let active = is_active p.status in
    let confirmed = is_confirmed_state n.support_state && not (is_empty n.closed) in
    if is_failed n.support_state || reclaimed p n
    then chosen false_breakout short_invalidated (truthy_or p.level level)
    else if short_ready p n
    then chosen entry_ready short_entry_ready level
    else if is_rejected n.support_state && active
    then chosen retest_rejected bearish_watch level
    else if confirmed && continues p n level buffer
    then chosen bearish_continuation bearish_watch level
    else if confirmed && not active
    then chosen breakdown_confirmed bearish_watch level
    else if is_breach n.support_state && not active
    then chosen intrabar_breach short_watch level
    else if is_kept p.status
    then chosen no_event p.status level
    else reset

abbrev pub number : BearishEvent → ℕ
number no_event = 0
number intrabar_breach = 1
number breakdown_confirmed = 2
number retest_rejected = 3
number bearish_continuation = 4
number entry_ready = 5
number false_breakout = 6

abbrev pub is_same_event : BearishEvent → BearishEvent → Bool
is_same_event a b = number a == number b

abbrev pub is_invalidated : AlertStatus → Bool
is_invalidated short_invalidated = true
is_invalidated _ = false

abbrev pub distance : ℕ → ℕ → ℕ
distance a b = (a - b) + (b - a)

unfoldable pub next_state : AlertState → Snapshot → ℕ → BearishEvent → AlertStatus → ℕ → AlertState
next_state p n buffer event status level =
    let same_level = and_some p.level (λ old. leb (distance old level) (tolerance buffer)) in
    let width = truthy_or p.zone_high level - truthy_or p.zone_low level in
    let selected = if buffer == 0 then width / 2 else buffer in
    record {
      status = status;
      level = some level;
      invalidation_level = some level;
      zone_low = some (level - selected);
      zone_high = some (level + selected);
      created_at = if same_level && not (is_empty p.created_at) then p.created_at else n.now;
      last_closed_candle = n.closed;
      last_closed_price = n.closed_price;
      last_event = event;
      generation = p.generation + (if not same_level || is_invalidated p.status then 1 else 0);
    }

-- Nothing new: only the last close is noted.
unfoldable pub note_close : AlertState → Snapshot → AlertState
note_close p n = record p {
  last_closed_candle = if is_empty n.closed then p.last_closed_candle else n.closed;
  last_closed_price = or_option n.closed_price p.last_closed_price;
}

abbrev pub quiet : AlertState → Option Blocked → AlertEvaluation
quiet s reason = record {
  state = s;
  should_notify = false;
  event_type = no_event;
  topic = none;
  blocked_reason = reason;
}

unfoldable pub emit : AlertState → Snapshot → ℕ → Choice → AlertEvaluation
unfolding next_state note_close
emit p n buffer reset = quiet initial none
emit p n buffer (chosen event status level) =
    if is_same_event event no_event
      || (is_same_event p.last_event event && str_eq p.last_closed_candle n.closed)
    then quiet (note_close p n) none
    else record {
      state = next_state p n buffer event status level;
      should_notify = true;
      event_type = event;
      topic = some (record {
        topic_event = event;
        topic_level = level;
        topic_candle =
            if not (is_empty n.closed)
            then n.closed
            else if is_empty n.market_timestamp
            then "intrabar"
            else n.market_timestamp;
      });
      blocked_reason = none;
    }

-- The old status name counts as the watch.
abbrev pub migrated : AlertState → AlertState
migrated p = record p { status = elim (p.status) [ short_confirmed ↦ bearish_watch | s ↦ s ] }

-- No support on the chart: the level that was broken before, if any.
unfoldable pub by_level : AlertState → Snapshot → Option ℕ → AlertEvaluation
unfolding choose emit
by_level p n none = quiet p (some no_support_level)
by_level p n (some level) = emit p n 0 (choose p n level 0)

unfoldable pub with_support : AlertState → Snapshot → Option Level → AlertEvaluation
unfolding choose emit by_level
with_support p n (some l) =
    let buffer = or_else l.buffer 0 in emit p n buffer (choose p n (or_else l.price 0) buffer)
with_support p n none = by_level p n p.level

unfoldable pub when_unblocked : AlertState → Snapshot → Option Blocked → AlertEvaluation
unfolding with_support
when_unblocked p n (some reason) = quiet p (some reason)
when_unblocked p n none = with_support p n (support_level n.levels)

unfoldable pub evaluate_short_alert : Snapshot → Option AlertState → AlertEvaluation
unfolding when_unblocked
evaluate_short_alert n previous =
    when_unblocked (migrated (or_else previous initial)) n (validate_alert_zones n)
