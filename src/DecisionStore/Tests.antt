-- ===== src/DecisionStore/Tests.antt =====
-- app/services/current_decision_store.py at concrete inputs.
use vi_xauusd.Prelude.{
  ◌==◌, if◌then◌else◌, ◌≤◌, String, ◌≡◌, refl, true, false, none, some, [], ◌∷◌,
}
use vi_xauusd.Outbox.Row.{pending, sent, Row}
use vi_xauusd.DecisionStore.{
  Decision, Stored, Store, Context, is_out_of_order, is_changed, next_version, stamped, stored_row,
  atomic_publish_canonical_snapshot,
}
use vi_xauusd.DecisionStore.Versions.{version_of, publish_all, version-publish_all}
use vi_xauusd.DecisionStore.Supersession.{Pairwise, publish-cancels}

-- A digest that only keeps the version and the signature apart.
abbrev context : Context
context = record {
  now = 100;
  digest = λ n t. if n == 1 then "first" else t;
  event_digest = λ t e. t;
  event_of = λ t. some (record { is_of_symbol = true; is_test_event = false; has_version = true });
}

abbrev decision : String → String → Decision
decision candle signature = record {
  candle = candle;
  data_version = 1;
  evaluated_at = "2026-07-01T10:16";
  signature = signature;
  decision_version = 0;
  supersedes = "";
  decision_id = "";
  conflict_type = "";
  action = "WAIT";
  direction = "NEUTRAL";
  events = [];
}

abbrev waiting : Row
waiting = record {
  id = 1;
  event_id = "e";
  status = pending;
  attempts = 0;
  state_version = 1;
  message_id = none;
  sent_at = none;
  next_attempt_at = none;
  last_error = "";
  cancellation_reason = "";
  sender_worker_id = "";
  decision_id = "first";
  created_at = 50;
  updated_at = 50;
}

abbrev empty_store : Store
empty_store = record {
  current = none;
  monitor = none;
  conflicts = [];
  notifications = waiting ∷ record waiting { id = 2; status = sent } ∷ [];
}

abbrev first_row : Stored
first_row = stored_row (stamped context none (decision "10:15" "s"))

abbrev one_store : Store
one_store = record empty_store { current = some first_row }

-- An accepted change of the signature.
second_version :
    version_of
      (atomic_publish_canonical_snapshot context one_store (decision "10:30" "t")).2.current
    ≡ 2
unfolding atomic_publish_canonical_snapshot stored_row stamped next_version is_changed
    is_out_of_order
second_version = refl

version-publish_all_example :
    version_of one_store.current
    ≤ version_of
        (publish_all context one_store (decision "10:30" "t" ∷ decision "10:00" "s" ∷ [])).current
version-publish_all_example =
    version-publish_all context one_store (decision "10:30" "t" ∷ decision "10:00" "s" ∷ [])

publish-cancels_example :
    Pairwise context
      (atomic_publish_canonical_snapshot context one_store (decision "10:30" "t")).0.decision_id
      one_store.notifications
      (atomic_publish_canonical_snapshot context one_store (decision "10:30" "t")).2.notifications
unfolding atomic_publish_canonical_snapshot stored_row stamped is_changed is_out_of_order
publish-cancels_example = publish-cancels context one_store (decision "10:30" "t") refl refl
