-- ===== src/Outbox/Passes.antt =====
-- The life of one outbox row under any number of delivery workers: claims, first transactions and
-- answers of the channel in any order, with the reconciliation job, the merging of repeated events
-- and the publisher of a newer decision, which cancels what waits
-- (app/services/current_decision_store.py), in between. The rows that a query reads are locked until
-- its transaction ends, so that a claim is one step. A worker that dies leaves its delivery open.
pub mod Identity
pub mod Sound
pub mod AtMostOnce
use vi_xauusd.Prelude.{
  if◌then◌else◌, ltb, ℕ, zero, suc, ◌+◌, ◌*◌, String, Bool, true, false, not, ◌&&◌, ◌||◌, Option,
  none, some, List, [], ◌∷◌,
}
use vi_xauusd.Outbox.Row.{
  Status, pending, failed, retrying, edit_pending, sent, confirmed, delivery_unknown, cancelled,
  second, Row, Message, Current,
}
use vi_xauusd.Outbox.Claim.{is_due, Claim, won, claim_row}
use vi_xauusd.Outbox.Send.{
  Answer, no_receipt, raised, Monitors, Claimed, Environment, is_edited, before_send, finish,
}
use vi_xauusd.Outbox.Reconcile.{is_unknown, reconcile_row}

-- A claim that was won and is not done with; `sending` is there once the message was handed over.
pub record OpenDelivery : Type 0 where
  pub claim : Claimed
  pub claimed_at : ℕ
  pub sending : Option (Environment × Message)

pub record Life : Type 0 where
  pub row : Row
  pub monitors : Monitors
  pub deliveries : List OpenDelivery
  -- How many new messages Telegram accepted.
  pub accepted : ℕ

pub record Query : Type 0 where
  pub worker : String
  pub now : ℕ
  pub wanted : Option String
  pub subject : Message
  pub expired : Bool
  pub read_current : Option Current

-- A delivery is named by its place among the open ones. An answer says, besides what the worker sees,
-- whether Telegram accepted the message.
pub data Step : Type 0 where
  claims : Query → Step
  prepares : ℕ → Environment → Step
  answers : ℕ → Answer → Bool → Step
  reconciliation : Step
  superseded : ℕ → Step
  merged : ℕ → Step

abbrev after_claim : Query → Life → Row × Claim → Life
after_claim q x (r, won) = record x {
  row = r;
  deliveries =
      record {
        claim = record {
          message = q.subject;
          attempt = x.row.attempts + 1;
          prior_status = x.row.status;
          prior_message_id = x.row.message_id;
        };
        claimed_at = q.now;
        sending = none;
      }
      ∷ x.deliveries;
}
after_claim q x (r, _) = record x { row = r }

-- The first session of `deliver_pending_telegram`, as far as it is about this row.
unfoldable pub claim_pending : Query → Life → Life
claim_pending q x =
    if is_due q.now q.wanted x.row
    then after_claim q x (claim_row q.worker q.now q.read_current q.subject q.expired x.row x.row)
    else x

-- The delivery at a place, and the others.
abbrev pub delivery_at : ℕ → List OpenDelivery → Option (OpenDelivery × List OpenDelivery)
delivery_at n [] = none
delivery_at zero (d ∷ ds) = some (d, ds)
delivery_at (suc n) (d ∷ ds) = elim (delivery_at n ds) [
  | none ↦ none
  | some (e, es) ↦ some (e, d ∷ es)
]

abbrev opened :
    OpenDelivery → List OpenDelivery → Environment → Life → (Row × Monitors) × Option Message → Life
opened d ds env x ((r, s), none) = record x { row = r; monitors = s; deliveries = ds }
opened d ds env x ((r, s), some m) = record x {
  row = r;
  monitors = s;
  deliveries = record d { sending = some (env, m) } ∷ ds;
}

-- The loop body up to the hand-over.
unfoldable pub open_delivery : Environment → Life → Option (OpenDelivery × List OpenDelivery) → Life
open_delivery env x none = x
open_delivery env x (some (d, ds)) = elim (d.sending) [
  | some _ ↦ x
  | none ↦
      let env' = record env { now = d.claimed_at } in
      opened d ds env' x (before_send env' d.claim (x.row, x.monitors))
]

abbrev as_new : Bool → ℕ
as_new true = 1
as_new false = 0

-- The rest of the loop body.
unfoldable pub close_delivery :
    Answer → Bool → Life → Option (OpenDelivery × List OpenDelivery) → Life
close_delivery a is_accepted x none = x
close_delivery a is_accepted x (some (d, ds)) = elim (d.sending) [
  | none ↦ x
  | some (env, m) ↦
      let (r, s) = finish a m env d.claim (x.row, x.monitors) in
      record {
        row = r;
        monitors = s;
        deliveries = ds;
        accepted = x.accepted + as_new (is_accepted && not (is_edited env d.claim));
      }
]

-- `PENDING_NOTIFICATION_STATES`
abbrev is_pending_state : Status → Bool
is_pending_state pending = true
is_pending_state failed = true
is_pending_state retrying = true
is_pending_state edit_pending = true
is_pending_state _ = false

unfoldable pub cancel_superseded : ℕ → Row → Row
cancel_superseded now r =
    if is_pending_state r.status
    then record r {
      status = cancelled;
      cancellation_reason = "STALE_STATE_VERSION";
      updated_at = now;
    }
    else r

abbrev is_delivered : Status → Bool
is_delivered sent = true
is_delivered confirmed = true
is_delivered delivery_unknown = true
is_delivered _ = false

-- A repeated event is merged into the row's event: only the time of the last update changes.
unfoldable pub merge_repeated : ℕ → Row → Row
merge_repeated now r = if is_delivered r.status then r else record r { updated_at = now }

unfoldable pub step : Step → Life → Life
unfolding claim_pending open_delivery close_delivery cancel_superseded merge_repeated
step (claims q) x = claim_pending q x
step (prepares k env) x = open_delivery env x (delivery_at k x.deliveries)
step (answers k a is_accepted) x = close_delivery a is_accepted x (delivery_at k x.deliveries)
step reconciliation x = record x {
  row = if is_unknown x.row.status then (reconcile_row x.row).0 else x.row;
}
step (superseded now) x = record x { row = cancel_superseded now x.row }
step (merged now) x = record x { row = merge_repeated now x.row }

unfoldable pub run : List Step → Life → Life
run [] x = x
run (e ∷ es) x = run es (step e x)

-- The row before any worker looks at it.
abbrev pub untouched : Row → Monitors → Life
untouched r s = record { row = r; monitors = s; deliveries = []; accepted = 0 }

-- An answer after which the worker marks the row FAILED, so that it is sent again.
abbrev pub is_refusal : Answer → Bool
is_refusal no_receipt = true
is_refusal (raised is_timeout name) = not is_timeout
is_refusal _ = false

-- Such an answer is true: Telegram did not accept the message.
abbrev pub is_honest : Step → Bool
is_honest (answers k a is_accepted) = not (is_accepted && is_refusal a)
is_honest _ = true

abbrev none_open : List OpenDelivery → Bool
none_open [] = true
none_open (d ∷ ds) = false

abbrev pub is_in_lease : Step → Life → Bool
is_in_lease (claims q) x = none_open x.deliveries || ltb q.now (x.row.updated_at + 60 * second)
is_in_lease _ x = true

-- No query comes while a delivery is open whose lease has run out.
unfoldable pub leases_hold : List Step → Life → Bool
leases_hold [] x = true
leases_hold (e ∷ es) x = is_in_lease e x && leases_hold es (step e x)

abbrev handed : Option (Environment × Message) → Claimed → ℕ
handed none c = 0
handed (some (env, m)) c = as_new (not (is_edited env c))

-- The new messages that were accepted, and those that were handed over and not yet answered.
abbrev in_flight : List OpenDelivery → ℕ
in_flight [] = 0
in_flight (d ∷ ds) = handed d.sending d.claim + in_flight ds

abbrev pub arrivals : Life → ℕ
arrivals x = x.accepted + in_flight x.deliveries
