-- ===== src/Risk/Priority.antt =====
-- app/engines/risk_override.py, `apply_risk_priority`: the fixed order of data, event, position,
-- short term, entry and trend. The guidance texts and the list of levels, which is passed through,
-- are left out; a reason keeps its code, which names the weakness it is about, and its priority.
pub mod Order
use vi_xauusd.Prelude.{if◌then◌else◌, ℕ, Bool, true, false, not, ◌&&◌, ◌||◌, List, [], ◌∷◌}
use vi_xauusd.Risk.Weakness.{
  Weakness, no_weakness, early_warning, confirmed_weakness, accelerating, WeaknessResult,
}

pub data DataStatus : Type 0 where
  usable : DataStatus
  stale_data : DataStatus
  failed_data : DataStatus

pub data Regime : Type 0 where
  strong_bullish : Regime
  bullish : Regime
  range : Regime
  bearish : Regime
  strong_bearish : Regime

pub data Readiness : Type 0 where
  ready : Readiness
  wait_confirmation : Readiness
  avoid_chasing : Readiness
  no_trade : Readiness

pub data Override : Type 0 where
  no_override : Override
  suspend_all_entries : Override
  block_new_long : Override
  protect_existing_long : Override

pub data PositionRisk : Type 0 where
  normal : PositionRisk
  elevated : PositionRisk
  high : PositionRisk
  critical : PositionRisk

pub data ReasonCode : Type 0 where
  market_data_invalid : ReasonCode
  event_lockout_reason : ReasonCode
  short_weakness : Weakness → ReasonCode
  event_data_unknown : ReasonCode

pub record Reason : Type 0 where
  pub code : ReasonCode
  pub priority : ℕ

pub record Situation : Type 0 where
  pub weakness : WeaknessResult
  pub market_status : DataStatus
  pub event_status : DataStatus
  pub event_lockout : Bool
  pub market_regime : Regime
  pub entry_readiness : Readiness

pub record Priorities : Type 0 where
  pub risk_override : Override
  pub position_risk : PositionRisk
  pub readiness : Readiness
  pub long_allowed : Bool
  pub short_allowed : Bool
  pub reasons : List Reason

abbrev pub is_unusable : DataStatus → Bool
is_unusable usable = false
is_unusable _ = true

abbrev pub is_weak : Weakness → Bool
is_weak no_weakness = false
is_weak _ = true

-- Override, position risk, readiness and the reason of the branch that is taken.
pub by_weakness : Weakness → Readiness → Override × PositionRisk × Readiness
by_weakness accelerating r = (protect_existing_long, elevated, no_trade)
by_weakness confirmed_weakness r = (protect_existing_long, elevated, wait_confirmation)
by_weakness early_warning r = (block_new_long, elevated, wait_confirmation)
by_weakness no_weakness r = (no_override, normal, r)

unfoldable pub branch : Situation → Override × PositionRisk × Readiness
unfolding by_weakness
branch s =
    if is_unusable s.market_status || s.event_lockout
    then (suspend_all_entries, normal, no_trade)
    else if s.weakness.recovery_candidate
    then (block_new_long, elevated, wait_confirmation)
    else by_weakness s.weakness.state s.entry_readiness

pub reasons_of : Situation → List Reason
reasons_of s =
    let unknown : List Reason =
      if is_unusable s.event_status
      then record { code = event_data_unknown; priority = 2 } ∷ []
      else [] in
    let rest : List Reason =
      if is_weak s.weakness.state
      then record { code = short_weakness s.weakness.state; priority = 3 } ∷ unknown
      else unknown in
    if is_unusable s.market_status
    then record { code = market_data_invalid; priority = 1 } ∷ rest
    else if s.event_lockout
    then record { code = event_lockout_reason; priority = 2 } ∷ rest
    else rest

abbrev pub is_ready : Readiness → Bool
is_ready ready = true
is_ready _ = false

abbrev pub is_bearish : Regime → Bool
is_bearish bearish = true
is_bearish strong_bearish = true
is_bearish _ = false

-- The overrides against shorts that the code names besides the suspension are never chosen.
abbrev blocks_long : Override → Bool
blocks_long no_override = false
blocks_long _ = true

abbrev blocks_short : Override → Bool
blocks_short suspend_all_entries = true
blocks_short _ = false

unfoldable pub apply_risk_priority : Situation → Priorities
unfolding branch reasons_of
apply_risk_priority s =
    let (override, risk, readiness) = branch s in
    record {
      risk_override = override;
      position_risk = risk;
      readiness = readiness;
      long_allowed = is_ready readiness && not (blocks_long override);
      short_allowed =
          is_ready readiness && is_bearish s.market_regime && not (blocks_short override);
      reasons = reasons_of s;
    }
