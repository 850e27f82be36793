-- ===== src/Outbox/Enqueue/History.antt =====
-- app/services/decision_outbox.py: `_last_sent_market_decision`.
use vi_xauusd.Prelude.{
  ltb, if◌then◌else◌, or_else, or_option, filter, ℕ, zero, suc, String, Bool, true, false, not,
  ◌&&◌, Option, none, some, List, [], ◌∷◌, ◌++◌, str_eq,
}
use vi_xauusd.Outbox.Row.{Status, sent, confirmed}
use vi_xauusd.Outbox.Enqueue.Data.{Payload, EventRow, Notice, Board, World, is_empty, text_or}

abbrev pub is_delivered : Status → Bool
is_delivered sent = true
is_delivered confirmed = true
is_delivered _ = false

abbrev sent_time : Notice → ℕ
sent_time n = or_else n.row.sent_at 0

-- `ORDER BY sent_at DESC`
pub insert_latest : Notice → List Notice → List Notice
insert_latest n [] = n ∷ []
insert_latest n (m ∷ ms) =
    if ltb (sent_time n) (sent_time m) then m ∷ insert_latest n ms else n ∷ m ∷ ms

pub latest_first : List Notice → List Notice
unfolding insert_latest
latest_first [] = []
latest_first (n ∷ ns) = insert_latest n (latest_first ns)

-- The events of a notification, by the join on the event's id.
pub joined : String → List EventRow → Notice → List Payload
joined market [] n = []
joined market (e ∷ es) n =
    let rest = joined market es n in
    if str_eq e.row_event_id n.row.event_id && str_eq e.row_symbol market
    then e.row_payload ∷ rest
    else rest

pub join_all : String → List EventRow → List Notice → List Payload
unfolding joined
join_all market es [] = []
join_all market es (n ∷ ns) = joined market es n ++ join_all market es ns

abbrev direction_of : Payload → String
direction_of p = text_or p.direction "NONE"

-- The first of the same scenario, else the first of the same direction.
pub pick : Payload → Option Payload → List Payload → Option Payload
pick p fallback [] = fallback
pick p fallback (old ∷ olds) =
    let rest =
      pick p
        (if str_eq (direction_of old) (direction_of p)
          then or_option fallback (some old)
          else fallback)
        olds in
    if not (is_empty p.scenario_id) && str_eq old.scenario_id p.scenario_id then some old else rest

abbrev take {ℓ} : {A : Type ℓ} → ℕ → List A → List A
take zero xs = []
take (suc n) [] = []
take (suc n) (x ∷ xs) = x ∷ take n xs

unfoldable pub last_sent_market_decision : World → Board → Payload → Option Payload
unfolding latest_first join_all pick
last_sent_market_decision w b p =
    let rows = latest_first (filter (λ n. is_delivered n.row.status) b.notices) in
    pick p none (take 50 (join_all w.market b.events rows))
