-- ===== src/Outbox/Reconcile.antt =====
-- app/services/decision_outbox.py: `reconcile_unknown_deliveries` over the rows that its query
-- selects, and `resolve_delivery_unknown`.
pub mod Parked
use vi_xauusd.Prelude.{
  if◌then◌else◌, or_else, length, ℕ, ◌+◌, ◌-◌, String, Bool, true, false, not, Option, none, some,
  List, [], ◌∷◌, str_eq,
}
use vi_xauusd.Outbox.Row.{Status, failed, confirmed, delivery_unknown, Row}

abbrev pub is_unknown : Status → Bool
is_unknown delivery_unknown = true
is_unknown _ = false

abbrev pub is_given : Option String → Bool
is_given none = false
is_given (some id) = not (str_eq id "")

-- The loop body, on a row whose status is DELIVERY_UNKNOWN.
unfoldable pub reconcile_row : Row → Row × Bool
reconcile_row r =
    if is_given r.message_id
    then (
      record r {
        status = confirmed;
        sent_at = some (or_else r.sent_at r.updated_at);
        last_error = "";
      },
      true,
    )
    else (r, false)

pub record Summary : Type 0 where
  pub checked : ℕ
  pub found : ℕ
  pub unresolved : ℕ

abbrev as_number : Bool → ℕ
as_number true = 1
as_number false = 0

pub reconcile_rows : List Row → List Row × ℕ
unfolding reconcile_row
reconcile_rows [] = ([], 0)
reconcile_rows (r ∷ rows) =
    let rest = reconcile_rows rows in
    let (r', done) = reconcile_row r in (r' ∷ rest.0, as_number done + rest.1)

pub reconcile_unknown_deliveries : List Row → List Row × Summary
unfolding reconcile_rows
reconcile_unknown_deliveries rows =
    let (rows', n) = reconcile_rows rows in
    (rows', record { checked = length rows; found = n; unresolved = length rows - n })

-- The operator's answer for one row; `message_id` is empty if it was not given.
pub resolve_delivery_unknown : ℕ → Bool → String → Row → Row
resolve_delivery_unknown now delivered message_id r =
    if not (is_unknown r.status)
    then r
    else if delivered
    then record r {
      status = confirmed;
      message_id = if str_eq message_id "" then r.message_id else some message_id;
      sent_at = some (or_else r.sent_at now);
      next_attempt_at = none;
      last_error = "";
      updated_at = now;
    }
    else record r {
      status = failed;
      next_attempt_at = some now;
      last_error = "RECONCILIATION_CONFIRMED_NOT_DELIVERED";
      updated_at = now;
    }
