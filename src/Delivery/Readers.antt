-- ===== src/Delivery/Readers.antt =====
-- The gate of the readers.
use vi_xauusd.Prelude.{
  if◌then◌else◌, ℕ, String, ◌≡◌, refl, sym, ap, ◌∙◌, ◌≢◌, Bool, true, false, false≢true, Option,
  none, some, str_eq, eq_refl,
}
use vi_xauusd.Positions.{}
use vi_xauusd.Pricing.{}
use vi_xauusd.Delivery.{
  Action, enter, other_action, Settings, Payload, CurrentRow, Queued, Market, Reason, is_enter,
  check_entry, validate_pre_delivery, is_missed, blocked_entry_payload, read_row,
  get_delivery_safe_current_decision,
}

literal : (s t : String) → str_eq s t ≡ false → s ≢ t
literal s t h e = false≢true (sym h ∙ ap (str_eq s) (sym e) ∙ eq_refl s)

-- A blocked payload cannot enter, by its action, its flag or its risk gate, whatever the reason and
-- the decision.
pub blocked-closed :
    (p : Payload) (r : Reason)
    → (is_enter (blocked_entry_payload p r).final_action ≡ false)
      × ((blocked_entry_payload p r).can_enter ≡ false)
      × ((blocked_entry_payload p r).risk_gate ≢ "ENTRY_READY")
      × ((blocked_entry_payload p r).risk_gate ≢ "PROBE_READY")
unfolding blocked_entry_payload
blocked-closed p r = (refl, refl, gate (is_missed r), gate_probe (is_missed r))
  where
    gate_of : Bool → String
    gate_of b = if b then "ENTRY_MISSED" else "INTERNAL_CONFLICT"

    gate : (b : Bool) → gate_of b ≢ "ENTRY_READY"
    gate true = literal _ _ refl
    gate false = literal _ _ refl

    gate_probe : (b : Bool) → gate_of b ≢ "PROBE_READY"
    gate_probe true = literal _ _ refl
    gate_probe false = literal _ _ refl

-- The payload of a row.
abbrev pub payload_of : Option CurrentRow → Option Payload
payload_of none = none
payload_of (some r) = some r.payload

read_whole :
    (c : Settings) (now : ℕ) (m : Market) (o : Option CurrentRow)
    → m.current ≡ o
    → read_row c now m o ≡ payload_of o
unfolding validate_pre_delivery
read_whole c now m none s = refl
read_whole c now m (some r) s = rw s refl

-- The gate of the readers lets every current decision through as it is, an entry too, at whatever
-- time, price and spread: the payload that it checks has no final decision.
pub get_delivery_safe-unchecked :
    (c : Settings) (now : ℕ) (m : Market)
    → get_delivery_safe_current_decision c now m ≡ payload_of m.current
unfolding get_delivery_safe_current_decision
get_delivery_safe-unchecked c now m = read_whole c now m m.current refl

-- Any message that is no entry is let through, and where there is a current decision its action takes
-- the message's place.
pub validate-not_entry :
    (c : Settings) (now queued_at : ℕ) (q : Queued) (m : Market) (r : CurrentRow)
    → m.current ≡ some r
    → is_enter q.queued_decision ≡ false
    → ((validate_pre_delivery c now queued_at q m).allowed ≡ true)
      × ((validate_pre_delivery c now queued_at q m).rendered_action ≡ r.payload.final_action)
unfolding validate_pre_delivery
validate-not_entry c now queued_at q m r s e = rw s (rw e (other q.queued_decision e))
  where
    other :
        (a : Action)
        → is_enter a ≡ false
        → ((check_entry c now queued_at q r.payload m a r.payload.final_action).allowed ≡ true)
          × ((check_entry c now queued_at q r.payload m a r.payload.final_action).rendered_action
              ≡ r.payload.final_action)
    other (enter x) h = absurd (false≢true (sym h))
    other (other_action x) h = (refl, refl)
