-- ===== src/Outbox/Send.antt =====
-- app/services/decision_outbox.py, `deliver_pending_telegram`: what happens to a row that was
-- claimed. `now` is the time of the claim, `delivery_now` that of the delivery. What
-- `validate_pre_delivery` answers and what the Telegram channel does are arguments.
pub mod Outcomes
use vi_xauusd.Prelude.{
  ltb, if◌then◌else◌, or_else, ℕ, ◌+◌, ◌*◌, ◌^◌, String, Bool, true, false, not, ◌&&◌, Option, none,
  some, List, [], ◌∷◌, str_eq,
}
use vi_xauusd.Outbox.Row.{
  Status, failed, edit_pending, confirmed, delivery_unknown, cancelled, Row, Message, Current,
  second, is_test, is_close_report, is_entry, is_outdated,
}

-- The channel answers with a receipt, says that the receipt is lost, answers with nothing, or raises
-- an exception of the given name, which may have "timeout" in it.
pub data Answer : Type 0 where
  receipt : String → Answer
  receipt_unknown : Answer
  no_receipt : Answer
  raised : Bool → String → Answer

pub data Verdict : Type 0 where
  allowed_as : Message → Verdict
  refused : String → Verdict
  check_raised : Bool → String → Verdict

-- What the channel was asked to do, with the message as rendered.
pub data Effect : Type 0 where
  nothing_done : Effect
  message_sent : Message → Effect
  message_edited : String → Message → Effect

pub record HistoryItem : Type 0 where
  pub item_report_key : String
  pub telegram_sent : Bool
  pub telegram_message_id : Option String
  pub telegram_sent_at : Option ℕ

pub record StoredLifecycle : Type 0 where
  pub stored_setup_id : String
  pub entry_notification_sent_at : Option ℕ
  pub was_entry_ready : Bool

-- The two rows of `MarketMonitorState` that a delivery updates, if they exist.
pub record Monitors : Type 0 where
  pub close_history : Option (List HistoryItem)
  pub final_lifecycle : Option StoredLifecycle

pub record Claimed : Type 0 where
  pub message : Message
  pub attempt : ℕ
  pub prior_status : Status
  pub prior_message_id : Option String

pub record Environment : Type 0 where
  pub now : ℕ
  pub delivery_now : ℕ
  pub current : Option Current
  pub safety : Verdict
  pub has_editor : Bool
  pub answer : Answer

abbrev pub least : ℕ → ℕ → ℕ
least a b = if ltb b a then b else a

-- The `except` branch.
pub fail : Bool → String → Environment → Claimed → Row → Row
fail is_ambiguous name env c r = record r {
  status = if is_ambiguous then delivery_unknown else failed;
  last_error = name;
  next_attempt_at =
      if is_ambiguous then none else some (env.now + least 300 (2 ^ c.attempt) * second);
  updated_at = env.now;
}

pub mark_history : String → String → ℕ → List HistoryItem → List HistoryItem
mark_history key id at_time [] = []
mark_history key id at_time (item ∷ items) =
    (if str_eq item.item_report_key key
      then record item {
        telegram_sent = true;
        telegram_message_id = some id;
        telegram_sent_at = some at_time;
      }
      else item)
    ∷ mark_history key id at_time items

abbrev on_some {ℓ κ} : {A : Type ℓ} {B : Type κ} → (A → B) → Option A → Option B
on_some f none = none
on_some f (some x) = some (f x)

pub mark_lifecycle : String → ℕ → StoredLifecycle → StoredLifecycle
mark_lifecycle setup_id at_time l =
    if str_eq l.stored_setup_id setup_id
    then record l { entry_notification_sent_at = some at_time; was_entry_ready = true }
    else l

pub note_delivery : Message → String → ℕ → ℕ → Monitors → Monitors
unfolding mark_history mark_lifecycle
note_delivery m id now delivery_now s = record s {
  close_history =
      if is_close_report m.kind
      then on_some (mark_history m.report_key id delivery_now) s.close_history
      else s.close_history;
  final_lifecycle =
      if m.lifecycle_is_ready && not (str_eq m.setup_id "")
      then on_some (mark_lifecycle m.setup_id now) s.final_lifecycle
      else s.final_lifecycle;
}

pub confirm : String → ℕ → Row → Row
confirm id delivery_now r = record r {
  status = confirmed;
  message_id = some id;
  sent_at = some delivery_now;
  last_error = "";
  updated_at = delivery_now;
}

unfoldable pub finish : Answer → Message → Environment → Claimed → Row × Monitors → Row × Monitors
unfolding fail confirm note_delivery
finish (receipt id) m env c (r, s) =
    (confirm id env.delivery_now r, note_delivery m id env.now env.delivery_now s)
finish receipt_unknown m env c (r, s) = (fail true "DeliveryUnknownError" env c r, s)
finish no_receipt m env c (r, s) = (fail false "RuntimeError" env c r, s)
finish (raised is_timeout name) m env c (r, s) = (fail is_timeout name env c r, s)

abbrev given_text : Option String → Bool
given_text none = false
given_text (some t) = not (str_eq t "")

abbrev is_edit : Status → Bool
is_edit edit_pending = true
is_edit _ = false

-- Whether an earlier message is edited in place of a new one.
abbrev pub is_edited : Environment → Claimed → Bool
is_edited env c = is_edit c.prior_status && given_text c.prior_message_id && env.has_editor

-- The message is handed to the channel, and its answer is written.
pub transmit : Environment → Claimed → (Row × Monitors) × Option Message → (Row × Monitors) × Effect
unfolding finish
transmit env c (rs, none) = (rs, nothing_done)
transmit env c (rs, some m) = (
  finish env.answer m env c rs,
  if is_edited env c then message_edited (or_else c.prior_message_id "") m else message_sent m,
)

-- A finalized close report is kept, without its permission to enter.
pub freshen : Environment → Row → Message → Message
freshen env r m =
    if is_close_report m.kind && is_outdated env.current r
    then record m { can_enter = false }
    else m

-- What `validate_pre_delivery` allows, refuses for a reason, or fails to answer.
pub checked : Verdict → Environment → Claimed → Row × Monitors → (Row × Monitors) × Option Message
unfolding fail
checked (check_raised is_timeout name) env c (r, s) = ((fail is_timeout name env c r, s), none)
checked (allowed_as rendered) env c (r, s) =
    ((record r { updated_at = env.delivery_now }, s), some rendered)
checked (refused reason) env c (r, s) = (
  (record r { status = cancelled; cancellation_reason = reason; updated_at = env.delivery_now }, s),
  none,
)

-- The first transaction of the loop body over a claimed row: the message to send, if there is one.
-- It reads the row and its version again, but not whether the lease of the claim still runs.
unfoldable pub before_send :
    Environment → Claimed → Row × Monitors → (Row × Monitors) × Option Message
unfolding checked freshen
before_send env c (r, s) =
    let m = c.message in
    if not (is_test m.kind) && not (is_close_report m.kind) && is_outdated env.current r
    then (
      (
        record r {
          status = cancelled;
          cancellation_reason = "STALE_STATE_VERSION";
          updated_at = env.delivery_now;
        },
        s,
      ),
      none,
    )
    else if is_entry m.kind
    then checked env.safety env c (r, s)
    else ((r, s), some (freshen env r m))

-- The loop body over one claimed row, where nothing else happens to the row meanwhile.
unfoldable pub deliver : Environment → Claimed → Row × Monitors → (Row × Monitors) × Effect
unfolding before_send transmit
deliver env c rs = transmit env c (before_send env c rs)
