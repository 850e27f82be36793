-- ===== src/Outbox/Claim.antt =====
-- app/services/decision_outbox.py, `deliver_pending_telegram`: which rows a worker claims. Whether
-- an entry event has outlived its time to live (`is_expired`) is an argument.
pub mod Ownership
use vi_xauusd.Prelude.{
  leb, ◌==◌, if◌then◌else◌, and_some, ℕ, zero, suc, ◌+◌, ◌*◌, String, Bool, true, false, not, ◌&&◌,
  ◌||◌, Option, none, some, List, [], ◌∷◌, str_eq,
}
use vi_xauusd.Outbox.Row.{
  Status, pending, failed, retrying, edit_pending, cancelled, same_status, Row, Message, Current,
  second, is_test, is_close_report, is_entry, is_outdated,
}

abbrev waits : Status → Bool
waits pending = true
waits failed = true
waits edit_pending = true
waits _ = false

abbrev is_retrying : Status → Bool
is_retrying retrying = true
is_retrying _ = false

-- The lease of a worker that holds the row for a minute counts as lost.
unfoldable pub claimable : ℕ → Row → Bool
claimable now r = waits r.status || (is_retrying r.status && leb (r.updated_at + 60 * second) now)

-- The filters of the query: `wanted` is the event that the caller names, if it names one.
unfoldable pub is_due : ℕ → Option String → Row → Bool
unfolding claimable
is_due now none r = claimable now r && and_some r.next_attempt_at (λ t. leb t now)
is_due now (some wanted) r = claimable now r && str_eq r.event_id wanted

-- `.order_by(id).limit(limit)`; the table is in the order of its ids.
unfoldable pub due_rows : ℕ → Option String → ℕ → List Row → List Row
unfolding is_due
due_rows now wanted zero rows = []
due_rows now wanted limit [] = []
due_rows now wanted (suc limit) (r ∷ rows) =
    let found = r ∷ due_rows now wanted limit rows in
    let rest = due_rows now wanted (suc limit) rows in if is_due now wanted r then found else rest

-- The conditional UPDATE: it takes the row only if it is still as this worker read it.
unfoldable pub compare_and_swap : String → ℕ → Row → Row → Row × Bool
compare_and_swap worker now read stored =
    if stored.id == read.id
      && same_status stored.status read.status
      && stored.updated_at == read.updated_at
    then (
      record stored {
        status = retrying;
        attempts = stored.attempts + 1;
        updated_at = now;
        sender_worker_id = worker;
      },
      true,
    )
    else (stored, false)

pub data Claim : Type 0 where
  too_old : Claim
  stale : Claim
  lost : Claim
  won : Claim

-- The loop body over one row that was read; `stored` is the row as the UPDATE finds it.
unfoldable pub claim_row : String → ℕ → Option Current → Message → Bool → Row → Row → Row × Claim
unfolding compare_and_swap
claim_row worker now current message expired read stored =
    if is_entry message.kind && expired
    then (
      record stored {
        status = cancelled;
        cancellation_reason = "NOTIFICATION_TOO_OLD";
        updated_at = now;
      },
      too_old,
    )
    else if not (is_test message.kind)
        && not (is_close_report message.kind)
        && is_outdated current read
    then (
      record stored {
        status = cancelled;
        cancellation_reason = "STALE_STATE_VERSION";
        updated_at = now;
      },
      stale,
    )
    else let (row, taken) = compare_and_swap worker now read stored in
      (row, if taken then won else lost)
