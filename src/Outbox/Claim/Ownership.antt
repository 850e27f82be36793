-- ===== src/Outbox/Claim/Ownership.antt =====
-- Who may claim a row, and that no two workers claim it on the same reading.
use vi_xauusd.Prelude.{
  ltb, Bool-cases, length, All, ℕ, zero, suc, ◌+◌, ◌*◌, ◌≤◌, String, ◌≡◌, inl, inr, Bool, true,
  false, not, ◌&&◌, ◌||◌, Option, none, some, List, [], ◌∷◌, arith,
}
use vi_xauusd.Outbox.Row.{
  Status, retrying, sent, confirmed, delivery_unknown, cancelled, Row, Message, Current, second,
  is_test, is_close_report, is_entry, is_outdated,
}
use vi_xauusd.Outbox.Claim.{claimable, is_due, due_rows, compare_and_swap, won, claim_row}

-- Two workers that read a claimable row in the same state cannot both win it, whoever is first and
-- whatever their clocks say, as long as the first clock is not behind the reading.
pub compare_and_swap_once :
    (first second_worker : String) (now later : ℕ) (read : Row)
    → claimable now read ≡ true
    → (compare_and_swap second_worker later read (compare_and_swap first now read read).0).1 ≡ false
unfolding compare_and_swap claimable
compare_and_swap_once first second_worker now later read h = ground arith

-- A claim that is won gives the row to that worker, counts one attempt and starts a new lease, and
-- it is only won for a claimable row that is, for a market or entry event, of the current decision
-- version, and for an entry event, not expired.
pub claim_row-won :
    (worker : String) (now : ℕ) (current : Option Current) (message : Message) (expired : Bool)
    (read stored : Row)
    → (claim_row worker now current message expired read stored).1 ≡ won
    → let row = (claim_row worker now current message expired read stored).0 in
      (row ≡ record stored {
        status = retrying;
        attempts = stored.attempts + 1;
        updated_at = now;
        sender_worker_id = worker;
      })
      × (stored.status ≡ read.status)
      × ((is_test message.kind || is_close_report message.kind || not (is_outdated current read))
          ≡ true)
      × ((is_entry message.kind && expired) ≡ false)
unfolding claim_row
claim_row-won worker now current message expired read stored h = ground arith

-- Delivered, parked or cancelled.
abbrev pub is_final : Status → Bool
is_final sent = true
is_final confirmed = true
is_final delivery_unknown = true
is_final cancelled = true
is_final _ = false

-- Another worker took the row less than a minute ago.
abbrev pub is_leased : ℕ → Row → Bool
is_leased now r = elim (r.status) [ retrying ↦ ltb now (r.updated_at + 60 * second) | _ ↦ false ]

abbrev IsFree : ℕ → Row → Type 0
IsFree now r = (is_final r.status ≡ false) × (is_leased now r ≡ false)

is_due-IsFree :
    (now : ℕ) (wanted : Option String) (r : Row) → is_due now wanted r ≡ true → IsFree now r
unfolding is_due
is_due-IsFree now none r h = ground arith
is_due-IsFree now (some w) r h = ground arith

-- A worker reads at most as many rows as it asked for, and none that was delivered, parked or
-- cancelled, or that another worker took less than a minute ago, even when a caller names an event.
pub due_rows-IsFree :
    (now : ℕ) (wanted : Option String) (limit : ℕ) (rows : List Row)
    → All
        (λ r. (is_final r.status ≡ false) × (is_leased now r ≡ false))
        (due_rows now wanted limit rows)
      × (length (due_rows now wanted limit rows) ≤ limit)
unfolding due_rows
due_rows-IsFree now wanted zero rows = (tt, omega arith)
due_rows-IsFree now wanted (suc limit) [] = (tt, omega arith)
due_rows-IsFree now wanted (suc limit) (r ∷ rows) = elim (Bool-cases (is_due now wanted r)) [
  | inl e ↦
      let (free, short) = due_rows-IsFree now wanted limit rows in
      rw e ((is_due-IsFree now wanted r e, free), omega arith)
  | inr e ↦ rw e (due_rows-IsFree now wanted (suc limit) rows)
]
