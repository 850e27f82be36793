-- ===== src/Risk/Weakness/Evidence.antt =====
-- What evidence a weakness needs.
use vi_xauusd.Prelude.{ltb, and_some, ◌≡◌, ◌≢◌, ◌↔◌, true, false, ◌&&◌, ◌||◌, arith}
use vi_xauusd.Prelude.Int.{}
use vi_xauusd.Risk.Weakness.{
  Support, failed_breakdown, no_weakness, accelerating, Indicators, is_structure_broken,
  macd_negative, macd_expanding, oscillator_bearish, h1_cooling, weakness_state,
  detect_short_term_weakness,
}

expanding_negative : (m : Indicators) → macd_expanding m ≡ true → macd_negative m ≡ true
unfolding macd_expanding macd_negative
expanding_negative m h = ground arith

-- RSI and KD alone, oversold or not, are never a weakness, also together with the RSI of the hour:
-- there is one exactly if the closed structure is broken, the MACD histogram is negative or the
-- hourly momentum cools.
pub weakness_state-no_weakness :
    (m : Indicators) (support : Support)
    → (weakness_state m support ≡ no_weakness)
      ↔ ((is_structure_broken support || macd_negative m || h1_cooling m) ≡ false)
unfolding weakness_state
weakness_state-no_weakness m support = ground arith

-- An accelerating weakness has a broken structure, a MACD histogram that is negative and falling,
-- and one more family of evidence, so that oscillators or the hour agree.
pub weakness_state-accelerating :
    (m : Indicators) (support : Support)
    → (weakness_state m support ≡ accelerating) ↔ (
        (is_structure_broken support
          && macd_expanding m
          && (oscillator_bearish m || h1_cooling m || and_some m.h1_rsi (λ r. ltb r 5000)))
        ≡ true)
unfolding weakness_state
weakness_state-accelerating m support = ground (arith, expanding_negative m)

-- A candidate for recovery is never at the same time an accelerating weakness.
pub recovery-accelerating :
    (m : Indicators) (support : Support)
    → (detect_short_term_weakness m support).recovery_candidate ≡ true
    → ((detect_short_term_weakness m support).state ≢ accelerating) × (support ≡ failed_breakdown)
unfolding detect_short_term_weakness weakness_state
recovery-accelerating m support h = ground arith
