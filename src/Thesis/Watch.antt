-- ===== src/Thesis/Watch.antt =====
-- app/engines/thesis_invalidation.py: the evaluation of a thesis at a price. Times are seconds, and an
-- empty candle time is none; only with a candle does the code read the time. The justification and
-- the arguments repeated in the state are left out; a remaining ratio is in thousandths.
use vi_xauusd.Prelude.Rounding.{distance, round_ratio}
use vi_xauusd.Prelude.{
  ltb, leb, ◌==◌, if◌then◌else◌, or_else, and_some, ℕ, suc, ◌+◌, ◌-◌, ◌*◌, ◌^◌, min, max, Bool,
  true, false, not, ◌&&◌, ◌||◌, Option, none, some, List, [], ◌∷◌,
}
use vi_xauusd.Positions.{Side, long, short}
use vi_xauusd.Thesis.{Thesis}

pub data Phase : Type 0 where
  healthy warning defend soft_pending soft_invalidated hard_invalidated recovered : Phase

pub data Reason : Type 0 where
  hold_thesis_healthy exit_emergency_stop exit_maximum_risk position_data_risk : Reason
  exit_hard_invalidation hold_recovered exit_soft_invalidation exit_trend_acceleration : Reason
  hold_reclaim_window_active defend_warning_breach : Reason

pub data DataStatus : Type 0 where
  good stale failed_data : DataStatus

pub data Trend : Type 0 where
  trending_bull trending_bear other_trend : Trend

pub record Invalidation : Type 0 where
  pub phase : Phase
  pub reason : Reason
  pub reclaim_deadline : Option ℕ
  pub pending_candle : Option ℕ
  pub last_candle : Option ℕ
  pub recovery_quality : ℕ
  pub transition_count : ℕ
  pub remaining_rr : Option ℕ

-- The arguments of an evaluation.
pub record Look : Type 0 where
  pub current_price : ℕ
  pub closed_price : Option ℕ
  pub candle : Option ℕ
  pub atr15 : ℕ
  pub regime : Trend
  pub data_status : DataStatus

pub record RiskEvent : Type 0 where
  pub previous_state : Phase
  pub current_state : Phase
  pub event_reason : Reason
  pub event_deadline : Option ℕ

unfoldable pub initial_invalidation_state : Invalidation
initial_invalidation_state = record {
  phase = healthy;
  reason = hold_thesis_healthy;
  reclaim_deadline = none;
  pending_candle = none;
  last_candle = none;
  recovery_quality = 0;
  transition_count = 0;
  remaining_rr = none;
}

abbrev pub is_terminal_phase : Phase → Bool
is_terminal_phase soft_invalidated = true
is_terminal_phase hard_invalidated = true
is_terminal_phase _ = false

abbrev pub same_phase : Phase → Phase → Bool
same_phase healthy healthy = true
same_phase warning warning = true
same_phase defend defend = true
same_phase soft_pending soft_pending = true
same_phase soft_invalidated soft_invalidated = true
same_phase hard_invalidated hard_invalidated = true
same_phase recovered recovered = true
same_phase _ _ = false

-- `_breached` and `_reclaimed`
abbrev pub breached : Side → ℕ → ℕ → Bool
breached long price level = ltb price level
breached short price level = ltb level price

abbrev pub reclaimed : Side → ℕ → ℕ → Bool
reclaimed long price level = ltb level price
reclaimed short price level = ltb price level

abbrev pub is_new_candle : Option ℕ → Option ℕ → Bool
is_new_candle none _ = false
is_new_candle (some c) none = true
is_new_candle (some c) (some l) = not (c == l)

abbrev pub adverse_move : Side → ℕ → ℕ → ℕ
adverse_move long entry price = entry - price
adverse_move short entry price = price - entry

unfoldable pub max_loss_hit : Thesis → ℕ → Bool
max_loss_hit t price =
    leb (t.risk_budget * 10 ^ 10)
      (adverse_move t.direction t.reference_entry price * t.position_size * t.contract_value)

abbrev pub emergency_hit : Thesis → ℕ → Bool
emergency_hit t price = breached t.direction price t.emergency_stop

abbrev pub is_bad : DataStatus → Bool
is_bad good = false
is_bad _ = true

abbrev pub is_adverse : Side → Trend → Bool
is_adverse long trending_bear = true
is_adverse short trending_bull = true
is_adverse _ _ = false

-- The penetration is at least 0.25 ATR.
abbrev pub is_deep : Thesis → ℕ → ℕ → Bool
is_deep t closed atr = leb (max atr 100) (4 * distance closed t.warning)

unfoldable pub quality_of : Thesis → ℕ → ℕ → ℕ
unfolding round_ratio
quality_of t closed atr =
    let a = max atr 100 in max 1 (min 100 (round_ratio (50 * a + 50 * distance closed t.warning) a))

abbrev pub move : Phase → Reason → Invalidation → Invalidation
move p r s = record s { phase = p; reason = r }

-- A pending invalidation at a new candle.
unfoldable pub resolve_pending : Thesis → Invalidation → Look → ℕ → Invalidation
unfolding quality_of
resolve_pending t s l now =
    let closed = or_else l.closed_price 0 in
    if and_some l.closed_price (λ c. reclaimed t.direction c t.warning)
    then record s {
      phase = recovered;
      reason = hold_recovered;
      recovery_quality = quality_of t closed l.atr15;
    }
    else if leb (or_else s.reclaim_deadline now) now
    then move soft_invalidated exit_soft_invalidation s
    else s

-- A close beyond the warning level.
unfoldable pub breach_warning : Thesis → Invalidation → Look → ℕ → Invalidation
breach_warning t s l now =
    if is_adverse t.direction l.regime && is_deep t (or_else l.closed_price 0) l.atr15
    then move soft_invalidated exit_trend_acceleration s
    else record s {
      phase = soft_pending;
      reason = hold_reclaim_window_active;
      reclaim_deadline = some (now + 900 * t.max_bars);
      pending_candle = l.candle;
    }

abbrev pub may_recover : Phase → Bool
may_recover warning = true
may_recover defend = true
may_recover recovered = true
may_recover _ = false

-- The price between two candles, or with no breach at the close.
unfoldable pub look_intrabar : Thesis → Invalidation → Look → Invalidation
look_intrabar t s l =
    if breached t.direction l.current_price t.warning
    then move warning defend_warning_breach s
    else if may_recover s.phase && reclaimed t.direction l.current_price t.warning
    then move recovered hold_recovered s
    else move healthy hold_thesis_healthy s

abbrev pub closed_beyond : Thesis → Look → ℕ → Bool
closed_beyond t l level = and_some l.closed_price (λ c. breached t.direction c level)

-- The branches in the order of the code.
unfoldable pub decide : Thesis → Invalidation → Look → Invalidation
decide t s l =
    let fresh = is_new_candle l.candle s.last_candle in
    let now = or_else l.candle 0 in
    if emergency_hit t l.current_price
    then move hard_invalidated exit_emergency_stop s
    else if max_loss_hit t l.current_price
    then move hard_invalidated exit_maximum_risk s
    else if is_bad l.data_status
    then move defend position_data_risk s
    else if fresh && closed_beyond t l t.hard
    then move hard_invalidated exit_hard_invalidation s
    else if same_phase s.phase soft_pending && fresh
    then resolve_pending t s l now
    else if fresh && closed_beyond t l t.warning
    then breach_warning t s l now
    else look_intrabar t s l

unfoldable pub remaining_of : Thesis → Look → Option ℕ
unfolding round_ratio
remaining_of t l = elim t.first_target [
  | none ↦ none
  | some target ↦ some (
      round_ratio (1000 * adverse_move t.direction target l.current_price)
        (max (distance l.current_price t.emergency_stop) 1))
]

abbrev pub event_of : Invalidation → Invalidation → List RiskEvent
event_of s n =
    if same_phase n.phase s.phase || same_phase n.phase healthy
    then []
    else record {
      previous_state = s.phase;
      current_state = n.phase;
      event_reason = n.reason;
      event_deadline = n.reclaim_deadline;
    }
      ∷ []

unfoldable pub evaluate_invalidation : Thesis → Invalidation → Look → Invalidation × List RiskEvent
evaluate_invalidation t s l =
    if is_terminal_phase s.phase
    then (s, [])
    else let n = decide t s l in
      (
        record n {
          last_candle = if is_new_candle l.candle s.last_candle then l.candle else s.last_candle;
          transition_count =
              if same_phase n.phase s.phase then s.transition_count else suc s.transition_count;
          remaining_rr = remaining_of t l;
        },
        event_of s n,
      )

abbrev same_side : Side → Side → Bool
same_side long long = true
same_side short short = true
same_side _ _ = false

-- `validate_immutable_thesis`: whether it raises.
unfoldable pub is_moved : Thesis → Thesis → Bool
is_moved o c =
    not (same_side o.direction c.direction)
    || not (o.warning == c.warning)
    || not (o.max_bars == c.max_bars)
    || not (o.hard == c.hard)
    || not (o.emergency_stop == c.emergency_stop)
    || not (o.risk_budget == c.risk_budget)
    || not (o.position_size == c.position_size)
