-- ===== src/Risk/Assessment/Separation.antt =====
-- A new entry and an existing position are judged apart, and oversold is no signal by itself.
use vi_xauusd.Prelude.{
  Bool-cases, length, ◌≤◌, ◌≡◌, ◌↔◌, inl, inr, Bool, true, ◌&&◌, Option, List, [], ◌∷◌, arith,
}
use vi_xauusd.Prelude.Int.{ℤ, ltb_ℤ}
use vi_xauusd.Risk.Weakness.{Support, no_break, Weakness, both, is_negative}
use vi_xauusd.Risk.Priority.{Readiness}
use vi_xauusd.Risk.Assessment.{
  PositionContext, is_complete, Reversal, reversal_confirmed, Bar, judge_bars, last_two, by_count,
  classify_reversal_state, exit_confirmed, assess_trading_decision,
}

-- An existing position is told to exit exactly if its context is complete and the invalidation of
-- its thesis is confirmed; the weakness of the short term and an oversold market cannot do it.
pub assess-exit_confirmed :
    (w : Weakness) (oversold : Bool) (reversal : Reversal) (readiness : Readiness)
    (allowed : Bool × Bool) (context : PositionContext) (invalidation : Bool)
    → ((assess_trading_decision w oversold reversal readiness allowed context invalidation).action
        ≡ exit_confirmed)
      ↔ ((is_complete context && invalidation) ≡ true)
unfolding assess_trading_decision
assess-exit_confirmed w oversold found readiness allowed context invalidation = ground arith

judge_bars-confirmed :
    (prev last : Bar) (hist hist_prev : Option ℤ) (support : Support) (oversold : Bool)
    → judge_bars prev last hist hist_prev support oversold ≡ reversal_confirmed
    → (oversold ≡ true)
      × (support ≡ no_break)
      × (both hist hist_prev (λ h p. is_negative h && ltb_ℤ p h) ≡ true)
unfolding judge_bars
judge_bars-confirmed prev last hist hist_prev support oversold h =
    elim (Bool-cases (both hist hist_prev (λ h p. is_negative h && ltb_ℤ p h))) [
      | inl e ↦ (ground (arith, e), ground (arith, e), e)
      | inr e ↦ absurd (ground (arith, e))
    ]

-- A reversal counts as confirmed only in an oversold market with an unbroken structure, at least
-- three closed bars and a MACD histogram that is negative and shrinking, both of them present.
pub classify_reversal_state-confirmed :
    (bars : List Bar) (hist hist_prev : Option ℤ) (support : Support) (oversold : Bool)
    → classify_reversal_state bars hist hist_prev support oversold ≡ reversal_confirmed
    → (3 ≤ length bars)
      × (oversold ≡ true)
      × (support ≡ no_break)
      × (both hist hist_prev (λ h p. is_negative h && ltb_ℤ p h) ≡ true)
unfolding classify_reversal_state by_count
classify_reversal_state-confirmed [] hist hist_prev support oversold h = absurd (ground arith)
classify_reversal_state-confirmed (a ∷ []) hist hist_prev support oversold h = absurd (ground arith)
classify_reversal_state-confirmed (a ∷ b ∷ []) hist hist_prev support oversold h =
    absurd (ground arith)
classify_reversal_state-confirmed (a ∷ b ∷ c ∷ bars) hist hist_prev support oversold h =
    let (prev, last) = last_two a b c bars in
    let (o, s, m) = judge_bars-confirmed prev last hist hist_prev support oversold (ground arith) in
    (omega arith, o, s, m)
