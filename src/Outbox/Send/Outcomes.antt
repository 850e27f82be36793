-- ===== src/Outbox/Send/Outcomes.antt =====
-- What a delivery may send, and in which state it leaves the row.
use vi_xauusd.Prelude.{
  leb, ℕ, zero, suc, ◌+◌, ◌*◌, ◌^◌, ◌≤◌, String, ◌≡◌, refl, ◌⊎◌, true, false, not, ◌&&◌, ◌||◌,
  Option, none, some, arith, str_eq,
}
use vi_xauusd.Outbox.Row.{
  failed, Row, Message, second, is_test, is_close_report, is_entry, is_outdated,
}
use vi_xauusd.Outbox.Claim.{is_due}
use vi_xauusd.Outbox.Send.{
  allowed_as, Effect, nothing_done, message_sent, message_edited, Monitors, Claimed, Environment,
  least, deliver,
}
use native.Mathlib.Nat.{pow-suc}

-- The message that the channel was handed, new or as an edit.
abbrev pub handed_over : Effect → Option Message
handed_over nothing_done = none
handed_over (message_sent m) = some m
handed_over (message_edited id m) = some m

-- What is handed to the channel is never stale advice: a market or entry message belongs to the
-- current decision version, an entry message is the one that the safety check rendered, and a
-- close report of an older version has lost its permission to enter.
pub deliver-handed_over :
    (env : Environment) (c : Claimed) (r : Row) (s : Monitors) (m : Message)
    → handed_over (deliver env c (r, s)).1 ≡ some m
    → ((is_test c.message.kind || is_close_report c.message.kind || not (is_outdated env.current r))
        ≡ true)
      × ((is_entry c.message.kind ≡ false) ⊎ (env.safety ≡ allowed_as m))
      × (((is_close_report c.message.kind && is_outdated env.current r) ≡ false)
          ⊎ (m.can_enter ≡ false))
unfolding deliver
deliver-handed_over env c r s m h = ground arith

one-le-pow : (n : ℕ) → 1 ≤ 2 ^ n
one-le-pow zero = omega arith
one-le-pow (suc n) = rw pow-suc (omega (arith, one-le-pow n))

-- A delivery that ends in failure is due again: it notes a time, the least of five minutes and two to
-- the power of the attempt in seconds after the claim, and so one second to five minutes after it. The
-- query of a worker that names no event finds the row from that time on and not before; that of a
-- worker that names its event finds it at once.
pub deliver-failed :
    (env : Environment) (c : Claimed) (r : Row) (s : Monitors) (later : ℕ) (wanted : String)
    → (deliver env c (r, s)).0.0.status ≡ failed
    → (t : ℕ) × ((deliver env c (r, s)).0.0.next_attempt_at ≡ some t)
      × (t ≡ env.now + least 300 (2 ^ c.attempt) * second)
      × (env.now + second ≤ t)
      × (t ≤ env.now + 300 * second)
      × (is_due later none (deliver env c (r, s)).0.0 ≡ leb t later)
      × (is_due later (some wanted) (deliver env c (r, s)).0.0 ≡ str_eq r.event_id wanted)
unfolding deliver is_due
deliver-failed env c r s later wanted h = (
  env.now + least 300 (2 ^ c.attempt) * second,
  ground arith,
  refl,
  ground (arith, one-le-pow c.attempt),
  ground arith,
  ground arith,
  ground arith,
)
