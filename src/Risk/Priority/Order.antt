-- ===== src/Risk/Priority/Order.antt =====
-- Which concern wins.
use vi_xauusd.Prelude.{◌≡◌, refl, Bool, true, false, not, ◌&&◌, ◌||◌, arith}
use vi_xauusd.Prelude.Int.{}
use vi_xauusd.Risk.Weakness.{
  Support, Weakness, no_weakness, Indicators, is_structure_broken, macd_negative, h1_cooling,
  weakness_state, detect_short_term_weakness,
}
use vi_xauusd.Risk.Weakness.Evidence.{weakness_state-no_weakness}
use vi_xauusd.Risk.Priority.{
  Situation, is_unusable, is_weak, is_ready, is_bearish, apply_risk_priority,
}

abbrev pub can_enter : Situation → Bool
can_enter s =
    is_ready s.entry_readiness
    && not (is_unusable s.market_status)
    && not s.event_lockout
    && not s.weakness.recovery_candidate
    && not (is_weak s.weakness.state)

-- A new long is allowed exactly if the entry is ready, the market data are usable, no event locks
-- the market, and there is neither a weakness nor a mere candidate for recovery; a new short needs
-- a bearish regime on top of all this.
pub apply_risk_priority-allowed :
    (s : Situation)
    → ((apply_risk_priority s).long_allowed ≡ can_enter s)
      × ((apply_risk_priority s).short_allowed ≡ (can_enter s && is_bearish s.market_regime))
unfolding apply_risk_priority
apply_risk_priority-allowed s = ground arith

-- The weakness as the indicators give it, under any other circumstances.
abbrev pub detected : Indicators → Support → Situation → Situation
detected m support s = record s { weakness = detect_short_term_weakness m support }

detected_weak :
    (m : Indicators) (support : Support)
    → (is_structure_broken support || macd_negative m || h1_cooling m) ≡ true
    → is_weak (detect_short_term_weakness m support).state ≡ true
unfolding detect_short_term_weakness
detected_weak m support h = go (weakness_state m support) refl
  where
    go : (w : Weakness) → weakness_state m support ≡ w → is_weak w ≡ true
    go no_weakness e = absurd (ground (arith, (weakness_state-no_weakness m support).0 e))
    go _ e = refl

-- A broken 15-minute structure, a negative MACD histogram or a cooling hour keeps every new entry
-- closed, whatever the trend and however ready the entry is.
pub detect-apply_closed :
    (m : Indicators) (support : Support) (s : Situation)
    → (is_structure_broken support || macd_negative m || h1_cooling m) ≡ true
    → ((apply_risk_priority (detected m support s)).long_allowed ≡ false)
      × ((apply_risk_priority (detected m support s)).short_allowed ≡ false)
detect-apply_closed m support s h =
    ground (arith, apply_risk_priority-allowed (detected m support s), detected_weak m support h)
