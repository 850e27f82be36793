-- ===== src/SetupLifecycle/Tests.antt =====
-- app/engines/setup_lifecycle.py at concrete inputs.
use vi_xauusd.Prelude.{ℕ, ◌≤◌, ◌≡◌, refl, true, false, none, some, List, [], ◌∷◌}
use vi_xauusd.SetupLifecycle.{
  entry_ready, missed_entry, long, Lifecycle, Inputs, evaluate_setup_lifecycle,
  mark_entry_notification_sent,
}
use vi_xauusd.SetupLifecycle.Transitions.{rank, rank-evaluate}
use vi_xauusd.SetupLifecycle.Milestones.{}
use vi_xauusd.SetupLifecycle.Runs.{
  Event, evaluated, notified, step, run, entry_notified, missed-entry_notified,
}

-- A long setup above 4000, with an entry zone from 4000 to 4010.
abbrev at_price : ℕ → Inputs
at_price p = record {
  new_setup_id = "s1";
  new_direction = long;
  confirmation = some 4000;
  latest_closed_price = some 4005;
  closed_candle_time = "10:15";
  current_price = p;
  zone_low = some 4000;
  zone_high = some 4010;
  risk_controls_passed = true;
  calculated_at = "10:16";
  is_invalidated = false;
  clock = "10:17";
}

abbrev ready : Lifecycle
ready = evaluate_setup_lifecycle none (at_price 4005)

abbrev script : List Event
script = evaluated (at_price 4005) ∷ notified "10:18" ∷ evaluated (at_price 4020) ∷ []

abbrev missed : Lifecycle
missed =
    evaluate_setup_lifecycle (some (mark_entry_notification_sent ready "10:18")) (at_price 4020)

ready_state : ready.state ≡ entry_ready
unfolding evaluate_setup_lifecycle
ready_state = refl

run-script : run none script ≡ some missed
unfolding run step
run-script = refl

missed_state : missed.state ≡ missed_entry
unfolding evaluate_setup_lifecycle mark_entry_notification_sent
missed_state = refl

rank-evaluate_example :
    rank ready.state ≤ rank (evaluate_setup_lifecycle (some ready) (at_price 4020)).state
unfolding evaluate_setup_lifecycle
rank-evaluate_example = rank-evaluate ready (at_price 4020) refl

missed-entry_notified_example : entry_notified none false script ≡ true
missed-entry_notified_example = missed-entry_notified script missed run-script missed_state

-- The notification of one setup does not count for the next.
other_setup :
    entry_notified none false (
      evaluated (at_price 4005)
      ∷ notified "10:18"
      ∷ evaluated (record (at_price 4005) { new_setup_id = "s2" })
      ∷ [])
    ≡ false
unfolding entry_notified evaluate_setup_lifecycle mark_entry_notification_sent
other_setup = refl
