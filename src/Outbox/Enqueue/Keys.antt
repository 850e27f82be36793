-- ===== src/Outbox/Enqueue/Keys.antt =====
-- app/services/decision_outbox.py: `_canonicalize_payload`, `_notification_event_key` and the loop of
-- `persist_decision_events` that decides which payloads are worth a look.
use vi_xauusd.Prelude.{
  ◌==◌, if◌then◌else◌, and_some, String, Bool, true, false, not, ◌&&◌, ◌||◌, Option, none, some,
  List, [], ◌∷◌, str_eq,
}
use vi_xauusd.Outbox.Row.{}
use vi_xauusd.DecisionStore.{text_or, canonical_market_bias}
use vi_xauusd.Outbox.Enqueue.Data.{
  NoticeDecision, Payload, Standing, Policy, is_test_event, is_report, type_of,
}

-- `_canonicalize_payload`: bound to the current decision.
unfoldable pub canonicalize : Option Standing → Payload → Payload
canonicalize none p = p
canonicalize (some s) p = record p {
  market_bias = canonical_market_bias s.bias;
  state_version = s.current.decision_version;
  decision_id = s.current.current_decision_id;
  is_reloaded = not (p.state_version == 0) && not (p.state_version == s.current.decision_version);
}

unfoldable pub notification_event_key : Policy → Payload → String → String
notification_event_key x p semantic =
    x.key_digest (text_or p.symbol "XAUUSD") (type_of p) p.incident_id
      (text_or p.explicit_key (text_or semantic p.event_id))

-- `semanticDedupKey`
unfoldable pub with_semantic_key : Policy → Payload → Payload
with_semantic_key x p =
    if p.event_version == 0 then p else record p { semantic_key = x.semantic_digest p }

unfoldable pub with_keys : Policy → Payload → Payload
unfolding notification_event_key with_semantic_key
with_keys x p =
    let q = with_semantic_key x p in
    record q {
      event_key = notification_event_key x q q.semantic_key;
      payload_hash = x.fingerprint q;
    }

abbrev refused_as : String → String → NoticeDecision
refused_as reason level = record { eligible = false; reason_code = reason; priority = level }

pub judge : Policy → Payload → NoticeDecision
judge x p =
    if is_test_event p
    then record { eligible = true; reason_code = "TEST_NOTIFICATION"; priority = "INFO" }
    else if p.is_log_only
    then refused_as "LOG_ONLY_INTENT" "DEBUG"
    else x.eligibility p

-- A payload with its symbol, decision and digest.
pub prepare : Policy → String → Payload → Payload
unfolding judge with_semantic_key
prepare x market p =
    let q = record p { symbol = market } in with_semantic_key x (record q { notice = judge x q })

-- The first loop: an eligible payload with validation errors is dropped.
pub prepare_all : Policy → String → List Payload → List Payload
unfolding prepare
prepare_all x market [] = []
prepare_all x market (p ∷ ps) =
    let rest = prepare_all x market ps in
    let q = prepare x market p in if x.has_errors q && q.notice.eligible then rest else q ∷ rest

-- `current is not None and not is_test and not close_report and (…)`
unfoldable pub is_stale_payload : Option Standing → Payload → Bool
is_stale_payload s p =
    not (is_test_event p)
    && not (is_report p)
    && and_some s (λ c.
      not (str_eq p.decision_id c.current.current_decision_id)
      || not (p.state_version == c.current.decision_version))

unfoldable pub is_not_current : Option Standing → Payload → Bool
is_not_current s p =
    not (is_test_event p)
    && not (is_report p)
    && and_some s (λ c. not (str_eq p.decision_id c.current.current_decision_id))
