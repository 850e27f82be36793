-- ===== src/Thesis/Tests.antt =====
-- app/engines/thesis_invalidation.py at concrete inputs.
use vi_xauusd.Prelude.Rounding.{round_ratio}
use vi_xauusd.Prelude.{ℕ, ◌≡◌, refl, false, Option, none, some, [], ◌∷◌}
use vi_xauusd.Positions.{long}
use vi_xauusd.Thesis.{
  EntryPlan, Thesis, hard_of, warning_of, emergency_of, effective_distance, build_trade_thesis,
}
use vi_xauusd.Thesis.Watch.{
  healthy, soft_pending, hard_invalidated, exit_hard_invalidation, hold_reclaim_window_active, good,
  other_trend, Invalidation, Look, initial_invalidation_state, is_terminal_phase, max_loss_hit,
  breach_warning, decide, remaining_of, evaluate_invalidation,
}
use vi_xauusd.Thesis.Levels.{IsBuilt, build-IsLaidOut}
use vi_xauusd.Thesis.Endings.{watch, watch-terminal, watch-open, evaluate-pending_lost}

-- Long at 4620 with a stop at 4600 and an ATR of 10.
abbrev plan_4620 : EntryPlan
plan_4620 = record {
  direction = long;
  suggested_entry = 46200000;
  stop_loss = 46000000;
  atr15 = some 100000;
  is_sweep_reclaim = false;
  hard_invalidation = none;
  sweep_low = none;
  sweep_high = none;
  warning_level = some 46120000;
  reclaim_max_bars = some 2;
  emergency_atr = none;
  risk_per_trade = some 1000000;
  contract_value_per_point = none;
  spread = 3000;
  slippage = none;
  first_target = some 46500000;
}

abbrev thesis_4620 : Thesis
thesis_4620 = record {
  direction = long;
  reference_entry = 46200000;
  warning = 46120000;
  max_bars = 2;
  hard = 46000000;
  emergency_stop = 45950000;
  risk_budget = 1000000;
  position_size = 3891051;
  contract_value = 10000;
  first_target = some 46500000;
}

build_4620 : build_trade_thesis plan_4620 ≡ some thesis_4620
unfolding build_trade_thesis hard_of warning_of emergency_of effective_distance round_ratio
build_4620 = refl

build-IsLaidOut_example : IsBuilt plan_4620 (build_trade_thesis plan_4620)
build-IsLaidOut_example = build-IsLaidOut plan_4620

abbrev look_at : ℕ → Option ℕ → Option ℕ → Look
look_at price closed candle = record {
  current_price = price;
  closed_price = closed;
  candle = candle;
  atr15 = 100000;
  regime = other_trend;
  data_status = good;
}

abbrev pending_4620 : Invalidation
pending_4620 = record initial_invalidation_state {
  phase = soft_pending;
  reason = hold_reclaim_window_active;
  reclaim_deadline = some 2700;
  pending_candle = some 900;
  last_candle = some 900;
  transition_count = 1;
}

abbrev ended_4620 : Invalidation
ended_4620 = record pending_4620 { phase = hard_invalidated; reason = exit_hard_invalidation }

-- A close below the warning opens the window of two bars.
window_opens :
    (evaluate_invalidation thesis_4620 initial_invalidation_state
      (look_at 46115000 (some 46110000) (some 900))).0
    ≡ record pending_4620 { remaining_rr = some 2333 }
unfolding evaluate_invalidation decide breach_warning max_loss_hit remaining_of round_ratio
    initial_invalidation_state
window_opens = refl

watch-terminal_example :
    (watch thesis_4620 ended_4620 (look_at 46300000 none none ∷ []) ≡ ended_4620)
    × ((evaluate_invalidation thesis_4620
          (watch thesis_4620 ended_4620 (look_at 46300000 none none ∷ []))
          (look_at 46400000 (some 46400000) (some 1800))).1
        ≡ [])
watch-terminal_example =
    watch-terminal thesis_4620 ended_4620 (look_at 46300000 none none ∷ [])
      (look_at 46400000 (some 46400000) (some 1800)) refl

watch-open_example :
    is_terminal_phase
      (watch thesis_4620 pending_4620
        (look_at 45990000 (some 46110000) (some 900) ∷ look_at 46200000 none none ∷ [])).phase
    ≡ false
unfolding max_loss_hit
watch-open_example =
    watch-open thesis_4620 pending_4620
      (look_at 45990000 (some 46110000) (some 900) ∷ look_at 46200000 none none ∷ [])
      (((refl, refl), refl), (((refl, refl), refl), tt)) refl

evaluate-pending_lost_example :
    (evaluate_invalidation thesis_4620 pending_4620
      (look_at 46125000 (some 46110000) (some 900))).0.phase
    ≡ healthy
unfolding max_loss_hit
evaluate-pending_lost_example =
    evaluate-pending_lost thesis_4620 pending_4620 (look_at 46125000 (some 46110000) (some 900))
      refl (refl, refl) refl refl
