-- ===== src/TradeGate/Eligible.antt =====
-- When the gate lets signals through.
use vi_xauusd.Prelude.{
  ltb, or_else, and_some, Bool-cases, ℕ, zero, suc, ◌+◌, ◌-◌, ◌*◌, ◌≤◌, ◌<◌, ◌≡◌, refl, ◌↔◌, ◌⊎◌,
  inl, inr, true, false, ◌&&◌, ◌||◌, Option, none, some, arith,
}
use vi_xauusd.TradeGate.{
  good, Tick, Settings, Question, max_future_skew, is_too_wide, evaluate_conditions,
  evaluate_prices, evaluate_time, evaluate_tick, evaluate_trade_eligibility,
}

-- Everything that the gate asks for, each part on its own.
pub record IsTradable (s : Settings) (q : Question) (t : Tick) (bid ask at_time : ℕ) : Type 0 where
  pub has_tick : q.tick ≡ some t
  pub has_bid : t.bid ≡ some bid
  pub has_ask : t.ask ≡ some ask
  pub has_time : t.quote_time ≡ some at_time
  pub not_ahead : at_time ≤ q.now + max_future_skew
  pub bid_positive : 0 < bid
  pub ordered : bid ≤ ask
  pub is_good : q.quality.status ≡ good
  pub is_matched : q.quality.source_mismatch ≡ false
  pub is_open : (q.quality.market_open || q.historical_mode) ≡ true
  pub is_fresh : (q.is_fallback && ltb s.gate_fallback_quote_max_age (q.now - at_time)) ≡ false
  pub is_narrow :
      (ask - bid ≤ s.gate_spread_max_abs)
      ⊎ ((ask - bid) * 100 ≤ s.gate_spread_max_atr15_percent * or_else q.atr15 0)
  pub has_history : q.is_insufficient_data ≡ false
  pub has_evidence :
      and_some q.evidence_score (λ score. ltb score s.gate_min_evidence_score) ≡ false

conditions-ok :
    (s : Settings) (q : Question) (age spread : ℕ)
    → (evaluate_conditions s q age spread).eligible ≡ true
    → (q.quality.status ≡ good)
      × (q.quality.source_mismatch ≡ false)
      × ((q.quality.market_open || q.historical_mode) ≡ true)
      × ((q.is_fallback && ltb s.gate_fallback_quote_max_age age) ≡ false)
      × (is_too_wide s q.atr15 spread ≡ false)
      × (q.is_insufficient_data ≡ false)
      × (and_some q.evidence_score (λ score. ltb score s.gate_min_evidence_score) ≡ false)
unfolding evaluate_conditions
conditions-ok s q age spread h = ground arith

conditions-eligible :
    (s : Settings) (q : Question) (t : Tick) (bid ask at_time : ℕ)
    → IsTradable s q t bid ask at_time
    → (evaluate_conditions s q (q.now - at_time) (ask - bid)).eligible ≡ true
unfolding evaluate_conditions
conditions-eligible s q t bid ask at_time h = ground arith

narrow :
    (s : Settings) (atr15 : Option ℕ) (spread : ℕ)
    → is_too_wide s atr15 spread ≡ false
    → (spread ≤ s.gate_spread_max_abs)
      ⊎ (spread * 100 ≤ s.gate_spread_max_atr15_percent * or_else atr15 0)
unfolding is_too_wide
narrow s atr15 spread h = ground arith

module _ (s : Settings) (q : Question) where
  abbrev Tradable : Tick → ℕ → Type 0
  Tradable t at_time = (bid : ℕ) × (ask : ℕ) × IsTradable s q t bid ask at_time

  prices-ok :
      (t : Tick) (at_time : ℕ)
      → q.tick ≡ some t
      → t.quote_time ≡ some at_time
      → at_time ≤ q.now + max_future_skew
      → (b a : Option ℕ) → t.bid ≡ b
      → t.ask ≡ a
      → (evaluate_prices s q (q.now - at_time) b a).eligible ≡ true
      → Tradable t at_time
  unfolding evaluate_prices
  prices-ok t at_time et eq le (some (suc bid)) (some (suc ask)) eb ea h =
      elim (Bool-cases (ltb (suc ask) (suc bid))) [
        | inl e ↦ absurd (ground arith)
        | inr e ↦
            let h' : (evaluate_conditions s q (q.now - at_time) (suc ask - suc bid)).eligible
                ≡ true =
              ground arith in
            let (g, m, o, f, w, i, v) =
              conditions-ok s q (q.now - at_time) (suc ask - suc bid) h' in
            (
              suc bid,
              suc ask,
              record {
                has_tick = et;
                has_bid = eb;
                has_ask = ea;
                has_time = eq;
                not_ahead = le;
                bid_positive = omega arith;
                ordered = ground arith;
                is_good = g;
                is_matched = m;
                is_open = o;
                is_fresh = f;
                is_narrow = narrow s q.atr15 (suc ask - suc bid) w;
                has_history = i;
                has_evidence = v;
              },
            )
      ]
  prices-ok t at_time et eq le _ _ eb ea h = absurd (ground arith)

  time-ok :
      (t : Tick) (o : Option ℕ)
      → q.tick ≡ some t
      → t.quote_time ≡ o
      → (evaluate_time s q t o).eligible ≡ true
      → (at_time : ℕ) × Tradable t at_time
  unfolding evaluate_time
  time-ok t none et eq h = absurd (ground arith)
  time-ok t (some at_time) et eq h = elim (Bool-cases (ltb (q.now + max_future_skew) at_time)) [
    | inl e ↦ absurd (ground arith)
    | inr e ↦
        (at_time, prices-ok t at_time et eq (ground arith) t.bid t.ask refl refl (ground arith))
  ]

  tick-ok :
      (o : Option Tick)
      → q.tick ≡ o
      → (evaluate_tick s q o).eligible ≡ true
      → (t : Tick) × (at_time : ℕ) × Tradable t at_time
  unfolding evaluate_tick
  tick-ok none e h = absurd (ground arith)
  tick-ok (some t) e h = let (at_time, rest) = time-ok t t.quote_time e refl h in (t, at_time, rest)

tradable-eligible :
    (s : Settings) (q : Question) (t : Tick) (bid ask at_time : ℕ)
    → IsTradable s q t bid ask at_time
    → (evaluate_trade_eligibility s q).eligible ≡ true
unfolding evaluate_trade_eligibility evaluate_tick evaluate_time evaluate_prices
tradable-eligible s q t zero ask at_time h = absurd (omega (arith, h.bid_positive))
tradable-eligible s q t (suc bid) zero at_time h = absurd (omega (arith, h.ordered))
tradable-eligible s q t (suc bid) (suc ask) at_time h =
    simp (h.has_tick, h.has_time, h.has_bid, h.has_ask)
      (ground
        (arith, h.not_ahead, h.ordered, conditions-eligible s q t (suc bid) (suc ask) at_time h))

-- The gate lets signals through exactly if there is a quote with a time at most five seconds ahead,
-- finite positive prices and the ask not below the bid, the data are good and their sources agree,
-- the market is open or history is analysed, a fallback quote is not too old, the spread is within
-- the absolute limit or within its multiple of the ATR, there is enough history, and the evidence,
-- where it is given, reaches the minimum.
pub eligible_iff :
    (s : Settings) (q : Question)
    → ((evaluate_trade_eligibility s q).eligible ≡ true)
      ↔ ((t : Tick) × (at_time : ℕ) × (bid : ℕ) × (ask : ℕ) × IsTradable s q t bid ask at_time)
eligible_iff s q = (
  λ h.
      let (t, at_time, rest) = tick-ok s q q.tick refl (unfold evaluate_trade_eligibility in h) in
      let (bid, ask, good_quote) = rest in (t, at_time, bid, ask, good_quote),
  λ w. tradable-eligible s q w.0 w.2 w.3 w.1 w.4,
)
