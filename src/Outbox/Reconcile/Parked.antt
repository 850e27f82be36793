-- ===== src/Outbox/Reconcile/Parked.antt =====
-- Ambiguous deliveries stay parked until a receipt or the operator decides.
use vi_xauusd.Prelude.{
  leb, if◌then◌else◌, length, All, ℕ, suc, ◌+◌, String, ◌≡◌, refl, Bool, false, not, ◌&&◌, Option,
  none, some, List, [], ◌∷◌, arith, str_eq,
}
use vi_xauusd.Outbox.Row.{delivery_unknown, Row}
use vi_xauusd.Outbox.Claim.{is_due}
use vi_xauusd.Outbox.Reconcile.{
  is_unknown, reconcile_row, reconcile_rows, reconcile_unknown_deliveries, resolve_delivery_unknown,
}

-- The rows still parked and without a receipt.
abbrev pub parked : List Row → ℕ
parked [] = 0
parked (r ∷ rows) = let n = parked rows in if is_unknown r.status then suc n else n

abbrev pub IsParked : Row → Type 0
IsParked r = r.status ≡ delivery_unknown

reconcile_rows_lem :
    (rows : List Row)
    → All IsParked rows
    → (parked (reconcile_rows rows).0 + (reconcile_rows rows).1 ≡ length rows)
      × (length (reconcile_rows rows).0 ≡ length rows)
unfolding reconcile_rows
reconcile_rows_lem [] h = (omega arith, refl)
reconcile_rows_lem (r ∷ rows) h = ground (arith, reconcile_rows_lem rows h.1, h.0)

-- Reconciliation keeps every row, and the number of unresolved deliveries that it reports is the
-- number of rows that are still parked afterwards.
pub reconcile_unknown_deliveries-parked :
    (rows : List Row)
    → All IsParked rows
    → (parked (reconcile_unknown_deliveries rows).0
        ≡ (reconcile_unknown_deliveries rows).1.unresolved)
      × (length (reconcile_unknown_deliveries rows).0 ≡ length rows)
unfolding reconcile_unknown_deliveries
reconcile_unknown_deliveries-parked rows h = omega (arith, reconcile_rows_lem rows h)

-- The query of a worker that names no event finds the row from `now` on; that of a worker that names
-- one finds it if it is the event of the row.
abbrev pub is_found : Option String → ℕ → ℕ → String → Bool
is_found none now later event_id = leb now later
is_found (some wanted) now later event_id = str_eq event_id wanted

-- The query of a worker, with or without a named event, never finds a parked row, not even after a
-- reconciliation, whatever the time. After the operator's answer it finds the row exactly if the
-- answer was that it was not delivered: from then on, or at once by the name of its event.
pub resolve_delivery_unknown-is_due :
    (now later : ℕ) (wanted : Option String) (delivered : Bool) (id : String) (r : Row)
    → r.status ≡ delivery_unknown
    → (is_due later wanted r ≡ false)
      × (is_due later wanted (reconcile_row r).0 ≡ false)
      × (is_due later wanted (resolve_delivery_unknown now delivered id r)
          ≡ (not delivered && is_found wanted now later r.event_id))
unfolding resolve_delivery_unknown reconcile_row is_due
resolve_delivery_unknown-is_due now later none delivered id r h = ground arith
resolve_delivery_unknown-is_due now later (some w) delivered id r h = ground arith
