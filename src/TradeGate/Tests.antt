-- ===== src/TradeGate/Tests.antt =====
-- app/engines/trade_gate.py at concrete inputs.
use vi_xauusd.Prelude.{ℕ, ◌≡◌, refl, ◌↔◌, true, false, some}
use vi_xauusd.TradeGate.{
  good, Tick, Settings, Question, ok, market_closed, evaluate_trade_eligibility,
}
use vi_xauusd.TradeGate.Eligible.{IsTradable, eligible_iff}

abbrev defaults : Settings
defaults = record {
  gate_spread_max_abs = 150;
  gate_spread_max_atr15_percent = 25;
  gate_fallback_quote_max_age = 300;
  gate_min_evidence_score = 40;
}

abbrev quote : Tick
quote = record { bid = some 240000; ask = some 240030; quote_time = some 9950 }

abbrev fair : Question
fair = record {
  tick = some quote;
  quality = record { status = good; market_open = true; source_mismatch = false };
  is_insufficient_data = false;
  atr15 = some 600;
  evidence_score = some 55;
  now = 10000;
  is_fallback = false;
  historical_mode = false;
}

eligible_iff_example : ((evaluate_trade_eligibility defaults fair).eligible ≡ true) ↔ (
    (t : Tick) × (at_time : ℕ) × (bid : ℕ) × (ask : ℕ) × IsTradable defaults fair t bid ask at_time)
eligible_iff_example = eligible_iff defaults fair

fair_quote : (evaluate_trade_eligibility defaults fair).code ≡ ok
unfolding evaluate_trade_eligibility
fair_quote = refl

closed_market :
    (evaluate_trade_eligibility defaults (record fair {
      quality = record { status = good; market_open = false; source_mismatch = false };
    })).code
    ≡ market_closed
unfolding evaluate_trade_eligibility
closed_market = refl
