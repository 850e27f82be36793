-- ===== src/TradeGate.antt =====
-- app/engines/trade_gate.py: whether executable signals may be given at all. Prices are ticks, and
-- no price stands for what is not a finite number; times are tenths of a second, which is what the
-- age is rounded to, and a quote that is a little ahead has age 0. The multiple of the ATR is in percent. The Chinese reasons are left out: each
-- code has one, but for INVALID_QUOTE and INVALID_QUOTE_TIME.
pub mod Eligible
mod Tests
use vi_xauusd.Prelude.{
  ltb, if◌then◌else◌, is_some, or_else, and_some, ℕ, suc, ◌+◌, ◌-◌, ◌*◌, Bool, true, false, not,
  ◌&&◌, Option, none, some,
}

pub data QualityStatus : Type 0 where
  good : QualityStatus
  degraded : QualityStatus
  stale : QualityStatus
  failed : QualityStatus

pub record Quality : Type 0 where
  pub status : QualityStatus
  pub market_open : Bool
  pub source_mismatch : Bool

pub record Tick : Type 0 where
  pub bid : Option ℕ
  pub ask : Option ℕ
  pub quote_time : Option ℕ

pub record Settings : Type 0 where
  pub gate_spread_max_abs : ℕ
  pub gate_spread_max_atr15_percent : ℕ
  pub gate_fallback_quote_max_age : ℕ
  pub gate_min_evidence_score : ℕ

pub record Question : Type 0 where
  pub tick : Option Tick
  pub quality : Quality
  pub is_insufficient_data : Bool
  pub atr15 : Option ℕ
  pub evidence_score : Option ℕ
  pub now : ℕ
  pub is_fallback : Bool
  pub historical_mode : Bool

pub data Code : Type 0 where
  ok : Code
  no_quote : Code
  invalid_quote_time : Code
  invalid_quote : Code
  data_failed : Code
  market_closed : Code
  stale_quote : Code
  fallback_cache_stale : Code
  spread_too_wide : Code
  data_degraded : Code
  insufficient_history : Code
  no_evidence : Code

pub data Source : Type 0 where
  source_no_quote : Source
  source_invalid : Source
  source_failed : Source
  source_stale : Source
  source_degraded : Source
  source_ok : Source

pub data Spread : Type 0 where
  spread_unknown : Spread
  spread_invalid : Spread
  too_wide : Spread
  spread_ok : Spread

pub data Evidence : Type 0 where
  evidence_unknown : Evidence
  evidence_insufficient : Evidence
  evidence_ok : Evidence

pub record TradeEligibility : Type 0 where
  pub eligible : Bool
  pub code : Code
  pub data_age : Option ℕ
  pub source_status : Source
  pub is_market_open : Bool
  pub spread_status : Spread
  pub evidence_status : Evidence

-- `_MAX_FUTURE_SKEW_SECONDS`
abbrev pub max_future_skew : ℕ
max_future_skew = 50

-- `spread > max(abs limit, multiple of the ATR)`
pub is_too_wide : Settings → Option ℕ → ℕ → Bool
is_too_wide s atr15 spread =
    ltb s.gate_spread_max_abs spread
    && ltb (s.gate_spread_max_atr15_percent * or_else atr15 0) (spread * 100)

pub source_of : Quality → Source
source_of q = elim (q.status) [
  | failed ↦ source_failed
  | stale ↦ source_stale
  | degraded ↦ source_degraded
  | good ↦ if q.source_mismatch then source_degraded else source_ok
]

abbrev pub is_source : Source → Source → Bool
is_source source_failed source_failed = true
is_source source_stale source_stale = true
is_source source_degraded source_degraded = true
is_source _ _ = false

-- Steps 4 to 11: the quote is valid.
pub evaluate_conditions : Settings → Question → ℕ → ℕ → TradeEligibility
unfolding is_too_wide source_of
evaluate_conditions s q age spread =
    let source = source_of q.quality in
    let wide = is_too_wide s q.atr15 spread in
    let block = λ (c : Code) (e : Evidence).
      let answer : TradeEligibility = record {
        eligible = false;
        code = c;
        data_age = some age;
        source_status = source;
        is_market_open = q.quality.market_open;
        spread_status = if wide then too_wide else spread_ok;
        evidence_status = e;
      } in
      answer in
    if is_source source_failed source
    then block data_failed evidence_unknown
    else if not q.quality.market_open && not q.historical_mode
    then block market_closed evidence_unknown
    else if is_source source_stale source
    then block stale_quote evidence_unknown
    else if q.is_fallback && ltb s.gate_fallback_quote_max_age age
    then block fallback_cache_stale evidence_unknown
    else if wide
    then block spread_too_wide evidence_unknown
    else if is_source source_degraded source
    then block data_degraded evidence_unknown
    else if q.is_insufficient_data
    then block insufficient_history evidence_unknown
    else if and_some q.evidence_score (λ score. ltb score s.gate_min_evidence_score)
    then block no_evidence evidence_insufficient
    else record {
      eligible = true;
      code = ok;
      data_age = some age;
      source_status = source;
      is_market_open = q.quality.market_open;
      spread_status = if wide then too_wide else spread_ok;
      evidence_status = if is_some q.evidence_score then evidence_ok else evidence_unknown;
    }

abbrev refusal : Question → Code → Option ℕ → Source → Spread → TradeEligibility
refusal q c age source spread = record {
  eligible = false;
  code = c;
  data_age = age;
  source_status = source;
  is_market_open = q.quality.market_open;
  spread_status = spread;
  evidence_status = evidence_unknown;
}

-- Step 3: the prices.
pub evaluate_prices : Settings → Question → ℕ → Option ℕ → Option ℕ → TradeEligibility
unfolding evaluate_conditions
evaluate_prices s q age (some (suc bid)) (some (suc ask)) =
    if ltb (suc ask) (suc bid)
    then refusal q invalid_quote (some age) source_invalid spread_invalid
    else evaluate_conditions s q age (suc ask - suc bid)
evaluate_prices s q age _ _ = refusal q invalid_quote (some age) source_invalid spread_invalid

-- Step 2: the time of the quote, which may be a little ahead.
pub evaluate_time : Settings → Question → Tick → Option ℕ → TradeEligibility
unfolding evaluate_prices
evaluate_time s q t none = refusal q invalid_quote_time none source_invalid spread_unknown
evaluate_time s q t (some at_time) =
    if ltb (q.now + max_future_skew) at_time
    then refusal q invalid_quote_time none source_invalid spread_unknown
    else evaluate_prices s q (q.now - at_time) t.bid t.ask

pub evaluate_tick : Settings → Question → Option Tick → TradeEligibility
unfolding evaluate_time
evaluate_tick s q none = refusal q no_quote none source_no_quote spread_unknown
evaluate_tick s q (some t) = evaluate_time s q t t.quote_time

pub evaluate_trade_eligibility : Settings → Question → TradeEligibility
unfolding evaluate_tick evaluate_time
evaluate_trade_eligibility s q = evaluate_tick s q q.tick
