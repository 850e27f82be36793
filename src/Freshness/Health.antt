-- ===== src/Freshness/Health.antt =====
-- When the data count as healthy.
use vi_xauusd.Prelude.{
  is_some, ℕ, ◌*◌, String, ◌≡◌, refl, ◌↔◌, Bool, true, false, not, ◌&&◌, Option, none, some, arith,
}
use vi_xauusd.Freshness.{
  FreshnessStatus, fresh, HealthState, healthy, Item, Stamps, Limits, item, text_or, worse, is_bad,
  health, quote_limit, evaluate_freshness_state,
}

abbrev pub is_fresh : FreshnessStatus → Bool
is_fresh fresh = true
is_fresh _ = false

item-fresh :
    (now a b : ℕ) (o : Option ℕ)
    → is_fresh (item now a b o).status ≡ true
    → is_some (item now a b o).last_updated_at ≡ true
unfolding item
item-fresh now a b none h = absurd (ground arith)
item-fresh now a b (some t) h = refl

health-healthy :
    (market_open : Bool) (m c : Item) (previous : Option HealthState)
    → (is_fresh m.status ≡ true → is_some m.last_updated_at ≡ true)
    → (health market_open m (worse m.status c.status) previous ≡ healthy)
      ↔ ((market_open && not (is_bad previous) && is_fresh m.status && is_fresh c.status) ≡ true)
unfolding health
health-healthy market_open m c previous f = ground (arith, f)

-- The data are healthy exactly if the market is open, the quote and the last closed candle are both
-- fresh, and the state before was not stale, disconnected or closed, which has to recover first.
pub evaluate-healthy :
    (parse : String → Option ℕ) (l : Limits) (s : Stamps) (market_open : Bool) (now : ℕ)
    (previous : Option HealthState)
    → ((evaluate_freshness_state parse l s market_open now previous).health_state ≡ healthy) ↔ (
        (market_open
          && not (is_bad previous)
          && is_fresh (evaluate_freshness_state parse l s market_open now previous).market.status
          && is_fresh (evaluate_freshness_state parse l s market_open now previous).candle.status)
        ≡ true)
unfolding evaluate_freshness_state
evaluate-healthy parse l s market_open now previous =
    health-healthy market_open
      (item now (quote_limit l) (quote_limit l * 3)
        (parse (text_or s.last_update s.market_timestamp)))
      (item now 1200000 2100000 (parse s.last_closed_candle)) previous
      (item-fresh now (quote_limit l) (quote_limit l * 3)
        (parse (text_or s.last_update s.market_timestamp)))
