-- ===== src/BreakoutAlert/Candles.antt =====
-- One event for each closed candle.
use vi_xauusd.Prelude.{is_some, ℕ, ◌≡◌, Bool, true, false, Option, none, some, arith, str_eq}
use vi_xauusd.BreakoutAlert.{
  BreakoutStatus, pending_breakout, BreakoutState, Market, pending, confirm, fall_back, in_zone,
  without_resistance, with_resistance, evaluate_breakout_alert,
}

-- An event about a close, not the mere breach of the zone by the price.
abbrev pub is_close_event : Option BreakoutStatus → Bool
is_close_event none = false
is_close_event (some e) = elim e [ pending_breakout ↦ false | _ ↦ true ]

abbrev IsOnce : BreakoutState → Market → BreakoutState × Option BreakoutStatus → Type 0
IsOnce p m r =
    is_close_event r.1 ≡ true
    → (str_eq m.candle p.last_candle ≡ false)
      × (r.0.last_candle ≡ m.candle)
      × (is_some m.closed ≡ true)

in_zone-IsOnce :
    (p : BreakoutState) (m : Market) (center buffer : ℕ) → IsOnce p m (in_zone p m center buffer)
unfolding in_zone pending confirm fall_back
in_zone-IsOnce p m center buffer h = ground arith

without_resistance-IsOnce :
    (p : BreakoutState) (m : Market) (o : Option ℕ) → IsOnce p m (without_resistance p m o)
unfolding without_resistance
without_resistance-IsOnce p m none h = absurd (ground arith)
without_resistance-IsOnce p m (some high) h = in_zone-IsOnce p m high 0 h

with_resistance-IsOnce :
    (p : BreakoutState) (m : Market) (o : Option (ℕ × ℕ)) → IsOnce p m (with_resistance p m o)
unfolding with_resistance
with_resistance-IsOnce p m (some r) h = in_zone-IsOnce p m r.0 r.1 h
with_resistance-IsOnce p m none h = without_resistance-IsOnce p m p.zone_high h

-- An event about a close needs a close of a candle that the state did not know, and the new state
-- knows it, so that one closed candle never gives two such events in a row.
pub evaluate-once :
    (p : BreakoutState) (m : Market)
    → is_close_event (evaluate_breakout_alert p m).1 ≡ true
    → (str_eq m.candle p.last_candle ≡ false)
      × ((evaluate_breakout_alert p m).0.last_candle ≡ m.candle)
      × (is_some m.closed ≡ true)
unfolding evaluate_breakout_alert
evaluate-once p m h = with_resistance-IsOnce p m m.resistance h
