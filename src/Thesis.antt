-- ===== src/Thesis.antt =====
-- app/engines/thesis_invalidation.py: the levels of a position that are fixed before the entry. Prices
-- are ticks of 0.0001, to which the code rounds levels; a price that would be below 0 is 0. Money and
-- the value of a point are units of 0.0001, a size is in millionths. Factors are in hundredths. A number
-- that is not given is none. The texts, the evidence and the digest of the thesis are left out.
-- `Watch` is the evaluation that follows each price.
pub mod Watch
pub mod Levels
pub mod Endings
mod Tests
use vi_xauusd.Prelude.Rounding.{distance, round_ratio}
use vi_xauusd.Prelude.{
  ltb, ◌==◌, if◌then◌else◌, or_else, or_option, ℕ, ◌+◌, ◌-◌, ◌*◌, ◌^◌, max, Bool, not, ◌&&◌, Option,
  none, some,
}
use vi_xauusd.Positions.{Side, long, short}

pub record EntryPlan : Type 0 where
  pub direction : Side
  pub suggested_entry : ℕ
  pub stop_loss : ℕ
  pub atr15 : Option ℕ
  pub is_sweep_reclaim : Bool
  pub hard_invalidation : Option ℕ
  pub sweep_low : Option ℕ
  pub sweep_high : Option ℕ
  pub warning_level : Option ℕ
  pub reclaim_max_bars : Option ℕ
  pub emergency_atr : Option ℕ
  pub risk_per_trade : Option ℕ
  pub contract_value_per_point : Option ℕ
  pub spread : ℕ
  pub slippage : Option ℕ
  pub first_target : Option ℕ

pub record Thesis : Type 0 where
  pub direction : Side
  pub reference_entry : ℕ
  pub warning : ℕ
  pub max_bars : ℕ
  pub hard : ℕ
  pub emergency_stop : ℕ
  pub risk_budget : ℕ
  pub position_size : ℕ
  pub contract_value : ℕ
  pub first_target : Option ℕ

-- `x or d` of a number, where 0 counts as missing.
abbrev pub nonzero_or : Option ℕ → ℕ → ℕ
nonzero_or none d = d
nonzero_or (some x) d = if x == 0 then d else x

-- A price `x` further in the adverse direction.
abbrev pub worse : Side → ℕ → ℕ → ℕ
worse long price x = price - x
worse short price x = price + x

-- `sign * (a - b) > 0`
abbrev pub is_better : Side → ℕ → ℕ → Bool
is_better long a b = ltb b a
is_better short a b = ltb a b

abbrev pub atr_of : EntryPlan → ℕ
atr_of p = max (max (nonzero_or p.atr15 0) (distance p.suggested_entry p.stop_loss)) 100

-- The structural level, or the strategy's stop.
unfoldable pub hard_of : EntryPlan → ℕ
hard_of p =
    let swept : Option ℕ = elim p.direction [ long ↦ p.sweep_low | short ↦ p.sweep_high ] in
    or_else (or_option p.hard_invalidation (if p.is_sweep_reclaim then swept else none)) p.stop_loss

-- The derived warning level, in hundredths of a tick: 0.35 of the way to the hard level.
abbrev pub derived_warning : EntryPlan → ℕ
derived_warning p =
    let d = distance p.suggested_entry (hard_of p) in
    worse p.direction (100 * p.suggested_entry) (35 * d)

-- `round(warning, 4)`
unfoldable pub warning_of : EntryPlan → ℕ
warning_of p =
    let derived = round_ratio (derived_warning p) 100 in
    elim p.warning_level [
      | none ↦ derived
      | some w ↦
          if is_better p.direction p.suggested_entry w && is_better p.direction w (hard_of p)
          then w
          else derived
    ]

-- The emergency stop in hundredths of a tick, before it is rounded.
unfoldable pub emergency_of : EntryPlan → ℕ
unfolding hard_of
emergency_of p =
    let buffer =
      max (atr_of p * nonzero_or p.emergency_atr 25)
        (15 * distance p.suggested_entry (hard_of p)) in
    worse p.direction (100 * hard_of p) buffer

-- The distance that the size is computed from, in hundredths of a tick.
unfoldable pub effective_distance : EntryPlan → ℕ
unfolding emergency_of
effective_distance p =
    distance (100 * p.suggested_entry) (emergency_of p)
    + 100 * p.spread
    + (elim p.slippage [ none ↦ 2 * atr_of p | some s ↦ if s == 0 then 2 * atr_of p else 100 * s ])

unfoldable pub build_trade_thesis : EntryPlan → Option Thesis
unfolding hard_of warning_of emergency_of effective_distance round_ratio
build_trade_thesis p =
    let risk = nonzero_or p.risk_per_trade 10000 in
    let value = nonzero_or p.contract_value_per_point 10000 in
    if not (is_better p.direction p.suggested_entry (hard_of p))
    then none
    else some (record {
      direction = p.direction;
      reference_entry = p.suggested_entry;
      warning = warning_of p;
      max_bars = max 1 (nonzero_or p.reclaim_max_bars 1);
      hard = hard_of p;
      emergency_stop = round_ratio (emergency_of p) 100;
      risk_budget = risk;
      position_size = round_ratio (risk * 10 ^ 12) (effective_distance p * value);
      contract_value = value;
      first_target = p.first_target;
    })
