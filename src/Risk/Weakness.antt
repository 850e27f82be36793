-- ===== src/Risk/Weakness.antt =====
-- app/engines/risk_override.py, `detect_short_term_weakness`. An indicator is present or not;
-- MACD histograms are signed numbers, RSI and KD are in hundredths. `rsi_fast`, `rsi_slow` and
-- `rsi_fast_prev` are what the lookups with their fallback to RSI 14 give.
pub mod Evidence
use vi_xauusd.Prelude.{
  ltb, leb, if◌then◌else◌, is_some, and_some, length, ℕ, Bool, true, false, not, ◌&&◌, ◌||◌, Option,
  List, [], ◌∷◌,
}
use vi_xauusd.Prelude.Int.{ℤ, pos, ltb_ℤ}

pub data Support : Type 0 where
  no_break : Support
  intrabar_breach : Support
  confirmed_breakdown : Support
  retest_rejected : Support
  failed_breakdown : Support

pub data Weakness : Type 0 where
  no_weakness : Weakness
  early_warning : Weakness
  confirmed_weakness : Weakness
  accelerating : Weakness

pub data Family : Type 0 where
  price_structure : Family
  momentum : Family
  oscillator : Family
  higher_timeframe_momentum : Family

pub record Indicators : Type 0 where
  pub macd_hist : Option ℤ
  pub macd_hist_prev : Option ℤ
  pub rsi_fast : Option ℕ
  pub rsi_slow : Option ℕ
  pub rsi_fast_prev : Option ℕ
  pub stoch_k : Option ℕ
  pub stoch_d : Option ℕ
  pub stoch_k_prev : Option ℕ
  pub h1_hist : Option ℤ
  pub h1_hist_prev : Option ℤ
  pub h1_hist_prev2 : Option ℤ
  pub h1_rsi : Option ℕ

pub record WeaknessResult : Type 0 where
  pub state : Weakness
  pub families : List Family
  pub oversold : Bool
  pub recovery_candidate : Bool

abbrev pub is_structure_broken : Support → Bool
is_structure_broken confirmed_breakdown = true
is_structure_broken retest_rejected = true
is_structure_broken _ = false

abbrev pub is_recovered : Support → Bool
is_recovered failed_breakdown = true
is_recovered _ = false

abbrev pub both {ℓ} : {A : Type ℓ} → Option A → Option A → (A → A → Bool) → Bool
both a b p = and_some a (λ x. and_some b (λ y. p x y))

abbrev pub is_negative : ℤ → Bool
is_negative x = ltb_ℤ x (pos 0)

unfoldable pub macd_negative : Indicators → Bool
macd_negative m = and_some m.macd_hist is_negative

unfoldable pub macd_expanding : Indicators → Bool
macd_expanding m =
    both m.macd_hist m.macd_hist_prev (λ h p. is_negative h && is_negative p && ltb_ℤ h p)

unfoldable pub macd_contracting : Indicators → Bool
macd_contracting m = both m.macd_hist m.macd_hist_prev (λ h p. is_negative h && ltb_ℤ p h)

unfoldable pub oscillator_bearish : Indicators → Bool
oscillator_bearish m =
    (and_some m.rsi_slow (λ r. ltb r 5000) && both m.rsi_fast m.rsi_fast_prev ltb)
    || both m.stoch_k m.stoch_d
        (λ k d. ltb k d && (not (is_some m.stoch_k_prev) || and_some m.stoch_k_prev (λ p. ltb k p)))

unfoldable pub is_oversold : Indicators → Bool
is_oversold m = and_some m.rsi_fast (λ r. ltb r 3000) || and_some m.stoch_k (λ k. ltb k 2000)

unfoldable pub h1_cooling : Indicators → Bool
h1_cooling m = both m.h1_hist m.h1_hist_prev (λ h p.
    ltb_ℤ h p && (not (is_some m.h1_hist_prev2) || and_some m.h1_hist_prev2 (λ q. ltb_ℤ p q)))

abbrev when_true {ℓ} : {A : Type ℓ} → Bool → A → List A → List A
when_true b x xs = if b then x ∷ xs else xs

unfoldable pub families_of : Indicators → Support → List Family
families_of m support = when_true (is_structure_broken support) price_structure (
    when_true (macd_negative m) momentum (
      when_true (oscillator_bearish m) oscillator (
        when_true (h1_cooling m || and_some m.h1_rsi (λ r. ltb r 5000)) higher_timeframe_momentum
          [])))

unfoldable pub weakness_state : Indicators → Support → Weakness
unfolding families_of
weakness_state m support =
    let n = length (families_of m support) in
    let broken = is_structure_broken support in
    if broken && macd_expanding m && leb 3 n
    then accelerating
    else if leb 2 n && (broken || macd_negative m)
    then confirmed_weakness
    else if broken || macd_negative m || h1_cooling m
    then early_warning
    else no_weakness

unfoldable pub detect_short_term_weakness : Indicators → Support → WeaknessResult
unfolding weakness_state
detect_short_term_weakness m support = record {
  state = weakness_state m support;
  families = families_of m support;
  oversold = is_oversold m;
  recovery_candidate =
      is_recovered support && macd_contracting m && not (is_structure_broken support);
}
