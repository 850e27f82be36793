-- ===== src/Lib.antt =====
-- Verification of the core logic of the XAUUSD analysis service: who may change its settings, how an
-- entry matures, which decision is current, when signals are allowed, how notifications are enqueued
-- and delivered, and how positions are kept.
--
-- The parts and the files that model them:
--   * Security: app/security.py. Sessions (create_session, session_valid, destroy_session with the
--     purge and the eviction), RateLimit (rate_limit, rate_limit_window, the trimming of keys) and
--     Access (require_admin with its environment, token, session and origin checks).
--   * SetupLifecycle: app/engines/setup_lifecycle.py (evaluate_setup_lifecycle with its table of legal
--     transitions, mark_entry_notification_sent).
--   * Outbox: app/services/decision_outbox.py and the table TelegramNotification of app/db/models.py.
--     Claim selects the due rows and claims one by compare-and-swap, Send handles one claimed row up to
--     its final status, Reconcile deals with unknown deliveries, and Passes composes them the way
--     deliver_pending_telegram does: a claim, a first transaction and an answer are steps of any number
--     of workers, and anything may happen to the row between them. Enqueue is the other half:
--     persist_decision_events with its keys, its duplicate, regression and meaning checks and its two
--     inserts, on the same rows. What other workers commit while an event is handled is an argument
--     (Race), and an exception, which the commit rolls back, is none.
--   * DecisionStore: app/services/current_decision_store.py (atomic_publish_canonical_snapshot). It
--     works on the rows of Outbox: a new decision cancels what still waits of an older one.
--   * TradeGate: app/engines/trade_gate.py (evaluate_trade_eligibility).
--   * Risk: app/engines/risk_override.py (detect_short_term_weakness, apply_risk_priority) and
--     app/engines/position_assessment.py (the two-sided risk, the reversal state and
--     assess_trading_decision).
--   * ShortAlert: app/engines/short_alert_state.py (validate_alert_zones, evaluate_short_alert).
--   * SetupValidator: app/engines/setup_validator.py (validate_prices_detailed, has_fatal).
--   * BreakoutAlert: app/engines/breakout_alert_state.py (evaluate_breakout_alert).
--   * Freshness: app/engines/freshness_state.py (evaluate_freshness_state).
--   * Positions: app/services/position_service.py with validate_stop_update of
--     app/engines/trading_invariants.py (opening, stops, partial and full exits, the context, R).
--   * Quotes: app/services/tiered.py (QuoteCache, EventCooldown, check_structure_events) with
--     validate_quote of app/engines/trading_invariants.py.
--   * Replicas: SingleFlight is app/services/single_flight.py (SingleFlight.run and its tasks), as steps
--     of calls and tasks in any order; Ownership is app/services/scheduler_ownership.py (acquire, _renew,
--     release and their exceptions), as steps of replicas in any order.
--   * Calendar: app/utils/timeutils.py and app/services/market_calendar.py (trading_day and its bounds,
--     is_market_open, load_holidays, expected_candle_open_times).
--   * Candles: app/services/candle_service.py (store_candles, load_candles_from_db; Aggregate has
--     aggregate_candles, which asks Calendar for trading days) and, in Closed, the latest closed candle
--     of app/services/closed_candle_service.py.
--   * Execution: app/engines/scenario_execution.py (resolve_scenario_validity, can_execute_scenario) and
--     app/engines/decision_consistency.py (Consistency: validate_final_decision, fail_closed; Contract:
--     validate_canonical_contract, fail_closed_canonical).
--   * Regime: app/engines/regime_state_machine.py (evaluate_regime_state).
--   * Gate: app/engines/entry_opportunity_gate.py (the tier of a candidate, in Gate, and the choice of
--     evaluate_entry_opportunity_gate, in Choice).
--   * Thesis: app/engines/thesis_invalidation.py (build_trade_thesis, and in Watch
--     evaluate_invalidation and validate_immutable_thesis).
--   * Pricing: app/engines/scenario_safety.py (select_structural_stop, validate_price_structure,
--     calculate_risk_reward, lifecycle_status).
--   * Delivery: app/services/pre_delivery_trade_safety.py (validate_pre_delivery, blocked_entry_payload,
--     get_delivery_safe_current_decision), with the ratio of Pricing. It is the check that Outbox.Send
--     takes as its Verdict.
--   * LiveBias: app/engines/live_bias.py (resolve_direction_conflict, and in Level _dynamic_level).
--   * Policy: app/services/notification_policy.py (is_user_actionable_notification, priority,
--     eligibility, actionability_ttl_seconds, is_expired), with its sets of names in Tables.
--   * Prelude: Boolean tests, optional values, dictionaries in insertion order, lists, signed
--     numbers and roundings that the parts share.
--
-- A part is a tree of modules: its definitions, beside them what is proved of each operation, and
-- concrete runs in its module Tests.
--
-- Conventions. Prices are native numbers of ticks, times are microseconds, milliseconds or tenths of a
-- second, as each file says, and a missing value is none. The sums and products of Python do not
-- overflow, and neither do these. A dictionary is an association list in insertion order, a table is a
-- list of rows. The eviction of sessions runs on fuel, the number of sessions: each round removes one
-- session, and the bound on the store is proved of that run. The loop of expected_candle_open_times runs
-- on fuel for every second up to the end of the span, which is proved to be enough.
--
-- Code that is not here is a parameter: the comparison of secrets and the parsing of URLs (TextOps),
-- the digest and the table of events (Context), the parsing of times (parse), the rounding of a ratio
-- (round), and what the channel and the checks before delivery answer (Answer, Verdict). The rules of
-- what is worth a message are the record Policy of Outbox.Enqueue, since they also ask the aggregation
-- of facts, which is not modelled: enqueueing is proved for every such policy. What zoneinfo knows of
-- New York is the record Zone, and the commands of Redis are the record Redis, with the behaviour that
-- is relied on as hypotheses (HasCut, IsRedis).
--
-- Not modelled: the scoring engines on floating-point data frames, the presentation texts, the
-- providers and the refresh of candles against them, the language model, the jobs of the scheduler,
-- the aggregation of alerts, the web server and the front end.
pub mod BreakoutAlert
pub mod Calendar
pub mod Candles
pub mod DecisionStore
pub mod Delivery
pub mod Execution
pub mod Freshness
pub mod Gate
pub mod LiveBias
pub mod Outbox
pub mod Policy
pub mod Positions
pub mod Prelude
pub mod Pricing
pub mod Quotes
pub mod Regime
pub mod Replicas
pub mod Risk
pub mod Security
pub mod SetupLifecycle
pub mod SetupValidator
pub mod ShortAlert
pub mod Thesis
pub mod TradeGate
