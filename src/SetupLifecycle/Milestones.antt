-- ===== src/SetupLifecycle/Milestones.antt =====
-- The flags that a lifecycle record keeps agree with each other and with its state.
use vi_xauusd.Prelude.{if◌then◌else◌, String, ◌≡◌, Bool, true, false, none, some, arith}
use vi_xauusd.SetupLifecycle.{
  entry_ready, missed_entry, Lifecycle, Inputs, is_text, start_from, when_invalidated, when_live,
  settle, evaluate_setup_lifecycle, mark_entry_notification_sent,
}

pub record IsConsistent (s : Lifecycle) : Type 0 where
  pub ready_flagged : s.state ≡ entry_ready → s.was_entry_ready ≡ true
  pub ready_touched : s.was_entry_ready ≡ true → s.zone_touched ≡ true
  pub ready_armed : s.was_entry_ready ≡ true → s.setup_armed ≡ true
  pub ready_actionable : s.was_entry_ready ≡ true → s.entry_was_actionable ≡ true
  pub notified_ready : is_text s.entry_notification_sent_at ≡ true → s.was_entry_ready ≡ true
  pub missed_notified : s.state ≡ missed_entry → is_text s.entry_notification_sent_at ≡ true

start-IsConsistent :
    (p : Lifecycle) (i : Inputs) → IsConsistent p → IsConsistent (start_from (some p) i)
unfolding start_from
start-IsConsistent p i h = ground arith

blank-IsConsistent : (i : Inputs) → IsConsistent (start_from none i)
unfolding start_from
blank-IsConsistent i = ground arith

invalid-IsConsistent :
    (s : Lifecycle) (i : Inputs)
    → IsConsistent s
    → IsConsistent (settle s.state (when_invalidated s i))
unfolding settle when_invalidated
invalid-IsConsistent s i h = ground arith

live-IsConsistent :
    (s : Lifecycle) (i : Inputs) → IsConsistent s → IsConsistent (settle s.state (when_live s i))
unfolding settle when_live
live-IsConsistent s i h = ground arith

resolve-IsConsistent :
    (b : Bool) (s : Lifecycle) (i : Inputs)
    → IsConsistent s
    → IsConsistent (settle s.state (if b then when_invalidated s i else when_live s i))
resolve-IsConsistent true s i h = invalid-IsConsistent s i h
resolve-IsConsistent false s i h = live-IsConsistent s i h

pub evaluate_new-IsConsistent : (i : Inputs) → IsConsistent (evaluate_setup_lifecycle none i)
unfolding evaluate_setup_lifecycle
evaluate_new-IsConsistent i =
    resolve-IsConsistent i.is_invalidated (start_from none i) i (blank-IsConsistent i)

-- Every evaluation, from a consistent record or from none, of the same setup or of another, gives a
-- consistent record: a missed setup was notified before, a notified setup was ready, and a setup
-- that was ready had its zone touched and was armed and actionable.
pub evaluate-IsConsistent :
    (p : Lifecycle) (i : Inputs)
    → IsConsistent p
    → IsConsistent (evaluate_setup_lifecycle (some p) i)
      × IsConsistent (evaluate_setup_lifecycle none i)
unfolding evaluate_setup_lifecycle
evaluate-IsConsistent p i h = (
  resolve-IsConsistent i.is_invalidated (start_from (some p) i) i (start-IsConsistent p i h),
  evaluate_new-IsConsistent i,
)

pub mark-IsConsistent :
    (s : Lifecycle) (sent_at : String)
    → IsConsistent s
    → IsConsistent (mark_entry_notification_sent s sent_at)
unfolding mark_entry_notification_sent
mark-IsConsistent s sent_at h = ground arith
