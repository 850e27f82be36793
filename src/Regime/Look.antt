-- ===== src/Regime/Look.antt =====
-- Looks at the regime, one after another.
use vi_xauusd.Prelude.{ℕ, String, ◌≡◌, refl, ◌↔◌, true, Option, some, [], arith, str_eq, eq_refl}
use vi_xauusd.Regime.{
  bullish, Momentum, bearish_confirmed, bullish_restored, recovering, weakening, bullish_momentum,
  bearish_momentum, neutral_momentum, Market, Regime, htf_of, mid_of, confirmed_reclaim, classify,
  is_state, version_after, evaluate_regime_state,
}

-- The same market at another live price.
abbrev pub at_price : Option ℕ → Market → Market
at_price p m = record m { live_price = p }

at_price-classify : (p : Option ℕ) (m : Market) → classify (at_price p m) ≡ classify m
unfolding classify
at_price-classify p m = refl

is_state-some : (x : Momentum) → is_state (some x) x ≡ true
is_state-some bearish_confirmed = refl
is_state-some bullish_restored = refl
is_state-some recovering = refl
is_state-some weakening = refl
is_state-some bullish_momentum = refl
is_state-some bearish_momentum = refl
is_state-some neutral_momentum = refl

confirmed-evaluate :
    (identity : Market → Momentum → String → String) (r : Regime) (m : Market)
    → (evaluate_regime_state identity r m).0.confirmed_state ≡ some (classify m).0
unfolding evaluate_regime_state
confirmed-evaluate identity r m = refl

silent :
    (identity : Market → Momentum → String → String) (r : Regime) (m : Market)
    → is_state r.confirmed_state (classify m).0 ≡ true
    → str_eq m.source_candle r.regime_candle ≡ true
    → ((evaluate_regime_state identity r m).1 ≡ [])
      × ((evaluate_regime_state identity r m).0.state_version ≡ r.state_version)
unfolding evaluate_regime_state version_after
silent identity r m same candle = rw same (rw candle (ground arith, ground arith))

-- Looking again at a closed candle keeps the state, is silent and keeps the version, whatever the live
-- price and the history before: only a closed candle promotes the regime.
pub evaluate-again :
    (identity : Market → Momentum → String → String) (r : Regime) (m : Market) (price : Option ℕ)
    → let s = (evaluate_regime_state identity r m).0 in
      ((evaluate_regime_state identity s (at_price price m)).0.confirmed_state ≡ s.confirmed_state)
      × ((evaluate_regime_state identity s (at_price price m)).1 ≡ [])
      × ((evaluate_regime_state identity s (at_price price m)).0.state_version ≡ s.state_version)
unfolding evaluate_regime_state classify
evaluate-again identity r m price = (refl, again.0, again.1)
  where
    again :
        ((evaluate_regime_state identity
            (evaluate_regime_state identity r m).0
            (at_price price m)).1
          ≡ [])
        × ((evaluate_regime_state identity
              (evaluate_regime_state identity r m).0
              (at_price price m)).0.state_version
            ≡ (evaluate_regime_state identity r m).0.state_version)
    again =
        silent identity (evaluate_regime_state identity r m).0 (at_price price m)
          (is_state-some (classify m).0) (eq_refl m.source_candle)

-- The regime counts as restored exactly when 4H and 1H are bullish and a candle closed above the level
-- to reclaim, whatever the regime was before.
pub evaluate-restored :
    (identity : Market → Momentum → String → String) (r : Regime) (m : Market)
    → ((evaluate_regime_state identity r m).0.confirmed_state ≡ some bullish_restored)
      ↔ ((htf_of m ≡ bullish) × (mid_of m ≡ bullish) × (confirmed_reclaim m ≡ true))
unfolding evaluate_regime_state classify
evaluate-restored identity r m = (λ e. ground (arith, e), λ h. ground (arith, h))
