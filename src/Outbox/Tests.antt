-- ===== src/Outbox/Tests.antt =====
-- app/services/decision_outbox.py at concrete inputs.
use vi_xauusd.Prelude.{
  leb, ℕ, ◌+◌, ◌*◌, ◌^◌, ◌≤◌, String, ◌≡◌, refl, ◌⊎◌, true, false, not, ◌&&◌, ◌||◌, Option, none,
  some, List, [], ◌∷◌, str_eq,
}
use vi_xauusd.Outbox.Row.{
  pending, retrying, delivery_unknown, entry_event, Row, Message, Current, second, is_test,
  is_close_report, is_entry, is_outdated,
}
use vi_xauusd.Outbox.Claim.{claimable, is_due, compare_and_swap, claim_row}
use vi_xauusd.Outbox.Claim.Ownership.{compare_and_swap_once, is_final}
use vi_xauusd.Outbox.Send.{
  Answer, receipt, receipt_unknown, no_receipt, allowed_as, Monitors, Claimed, Environment, least,
  before_send, finish, deliver,
}
use vi_xauusd.Outbox.Send.Outcomes.{deliver-handed_over, deliver-failed}
use vi_xauusd.Outbox.Reconcile.{reconcile_row, resolve_delivery_unknown}
use vi_xauusd.Outbox.Reconcile.Parked.{is_found, resolve_delivery_unknown-is_due}
use vi_xauusd.Outbox.Passes.{
  Step, claims, prepares, answers, reconciliation, merged, step, run, untouched, leases_hold,
  arrivals,
}
use vi_xauusd.Outbox.Passes.AtMostOnce.{arrivals-le-one}

abbrev queued : Row
queued = record {
  id = 1;
  event_id = "e1";
  status = pending;
  attempts = 0;
  state_version = 7;
  message_id = none;
  sent_at = none;
  next_attempt_at = some 5;
  last_error = "";
  cancellation_reason = "";
  sender_worker_id = "";
  decision_id = "d7";
  created_at = 0;
  updated_at = 0;
}

abbrev entry : Message
entry = record {
  kind = entry_event;
  generated_at = some 0;
  setup_id = "s1";
  lifecycle_is_ready = true;
  report_key = "";
  can_enter = true;
}

abbrev version : ℕ → Option Current
version v = some (record { current_decision_id = "d7"; decision_version = v })

abbrev world : Answer → Environment
world a = record {
  now = 10;
  delivery_now = 12;
  current = version 7;
  safety = allowed_as entry;
  has_editor = true;
  answer = a;
}

abbrev taken : Row
taken = record queued { status = retrying; attempts = 1; updated_at = 10; sender_worker_id = "w1" }

abbrev claim : Claimed
claim = record { message = entry; attempt = 1; prior_status = pending; prior_message_id = none }

abbrev no_monitors : Monitors
no_monitors = record { close_history = none; final_lifecycle = none }

compare_and_swap_once_example :
    (compare_and_swap "w2" 11 queued (compare_and_swap "w1" 10 queued queued).0).1 ≡ false
unfolding claimable
compare_and_swap_once_example = compare_and_swap_once "w1" "w2" 10 11 queued refl

deliver-handed_over_example :
    ((is_test entry.kind || is_close_report entry.kind || not (is_outdated (version 7) taken))
      ≡ true)
    × ((is_entry entry.kind ≡ false) ⊎ ((world (receipt "m1")).safety ≡ allowed_as entry))
    × (((is_close_report entry.kind && is_outdated (version 7) taken) ≡ false)
        ⊎ (entry.can_enter ≡ false))
unfolding deliver
deliver-handed_over_example =
    deliver-handed_over (world (receipt "m1")) claim taken no_monitors entry refl

deliver-failed_example :
    (t : ℕ) × ((deliver (world no_receipt) claim (taken, no_monitors)).0.0.next_attempt_at ≡ some t)
    × (t ≡ 10 + least 300 (2 ^ 1) * second)
    × (10 + second ≤ t)
    × (t ≤ 10 + 300 * second)
    × (is_due 500 none (deliver (world no_receipt) claim (taken, no_monitors)).0.0 ≡ leb t 500)
    × (is_due 500 (some "e1") (deliver (world no_receipt) claim (taken, no_monitors)).0.0
        ≡ str_eq "e1" "e1")
unfolding deliver
deliver-failed_example = deliver-failed (world no_receipt) claim taken no_monitors 500 "e1" refl

abbrev ambiguous : Row
ambiguous = record queued { status = delivery_unknown; next_attempt_at = none }

resolve_delivery_unknown-is_due_example :
    (is_due 30 (some "e1") ambiguous ≡ false)
    × (is_due 30 (some "e1") (reconcile_row ambiguous).0 ≡ false)
    × (is_due 30 (some "e1") (resolve_delivery_unknown 20 false "" ambiguous)
        ≡ (not false && is_found (some "e1") 20 30 "e1"))
resolve_delivery_unknown-is_due_example =
    resolve_delivery_unknown-is_due 20 30 (some "e1") false "" ambiguous refl

abbrev query : String → ℕ → Step
query w t = claims (record {
  worker = w;
  now = t;
  wanted = none;
  subject = entry;
  expired = false;
  read_current = version 7;
})

-- Two workers: the second finds the row leased, the receipt of the first is lost, and the row is
-- parked.
abbrev history : List Step
history =
    query "w1" 10
    ∷ prepares 0 (world receipt_unknown)
    ∷ query "w2" 20
    ∷ merged 21
    ∷ answers 0 receipt_unknown true
    ∷ reconciliation
    ∷ query "w2" 100000000
    ∷ prepares 0 (world receipt_unknown)
    ∷ []

history_leases : leases_hold history (untouched queued no_monitors) ≡ true
unfolding leases_hold step before_send finish is_due claim_row reconcile_row
history_leases = refl

arrivals-le-one_example :
    (arrivals (run history (untouched queued no_monitors)) ≤ 1)
    × ((is_final queued.status ≡ false)
        ⊎ (arrivals (run history (untouched queued no_monitors)) ≡ 0))
arrivals-le-one_example =
    arrivals-le-one history queued no_monitors
      (refl, (refl, (refl, (refl, (refl, (refl, (refl, (refl, tt)))))))) history_leases

history-arrivals : arrivals (run history (untouched queued no_monitors)) ≡ 1
unfolding run step before_send finish is_due claim_row reconcile_row
history-arrivals = refl

-- A delivery that outlasts its lease: the second worker sends the message again.
outlasted :
    arrivals (
      run
        (query "w1" 10
          ∷ prepares 0 (world (receipt "m1"))
          ∷ query "w2" 70000000
          ∷ prepares 0 (world (receipt "m2"))
          ∷ answers 1 (receipt "m1") true
          ∷ answers 0 (receipt "m2") true
          ∷ [])
        (untouched queued no_monitors))
    ≡ 2
unfolding run step before_send finish is_due claim_row
outlasted = refl

-- A message that Telegram accepted although its answer had no id is sent again.
refused_wrongly :
    arrivals (
      run
        (query "w1" 10
          ∷ prepares 0 (world no_receipt)
          ∷ answers 0 no_receipt true
          ∷ query "w2" 70000000
          ∷ prepares 0 (world (receipt "m2"))
          ∷ answers 0 (receipt "m2") true
          ∷ [])
        (untouched queued no_monitors))
    ≡ 2
unfolding run step before_send finish is_due claim_row
refused_wrongly = refl
