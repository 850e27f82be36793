-- ===== src/SetupLifecycle/Transitions.antt =====
-- The order in which a setup goes through its states, and what it takes to become ready.
use vi_xauusd.Prelude.{
  ℕ, ◌≤◌, ◌<◌, ◌≡◌, refl, ◌≢◌, ◌⊎◌, inl, inr, true, false, Option, none, some, arith,
}
use vi_xauusd.SetupLifecycle.{
  State, wait_confirmation, confirmed_wait_retest, entry_ready, missed_entry, invalidated, archived,
  long, short, Lifecycle, Inputs, same_setup, start_from, confirmed, in_zone,
  evaluate_setup_lifecycle,
}

-- How far a setup has come.
abbrev pub rank : State → ℕ
rank wait_confirmation = 0
rank confirmed_wait_retest = 1
rank entry_ready = 2
rank missed_entry = 3
rank invalidated = 4
rank archived = 5

-- An evaluation of the same setup never takes it back to an earlier state, in the order: waiting
-- for confirmation, waiting for the retest, ready, missed, invalidated, archived.
pub rank-evaluate :
    (p : Lifecycle) (i : Inputs)
    → same_setup (some p) i ≡ true
    → rank p.state ≤ rank (evaluate_setup_lifecycle (some p) i).state
unfolding evaluate_setup_lifecycle
rank-evaluate p i same = ground arith

-- The last closed candle confirms the direction, or no confirmation is asked for.
abbrev pub IsConfirmed : Inputs → Type 0
IsConfirmed i =
    (i.confirmation ≡ none)
    ⊎ ((level : ℕ) × (closed : ℕ) × (i.confirmation ≡ some level)
        × (i.latest_closed_price ≡ some closed)
        × (((i.new_direction ≡ long) × (level < closed))
            ⊎ ((i.new_direction ≡ short) × (closed < level))))

abbrev pub IsInZone : Inputs → Type 0
IsInZone i =
    (low : ℕ) × (high : ℕ) × (i.zone_low ≡ some low)
    × (i.zone_high ≡ some high)
    × (low ≤ i.current_price)
    × (i.current_price ≤ high)

confirmed-IsConfirmed : (i : Inputs) → confirmed i ≡ true → IsConfirmed i
unfolding confirmed
confirmed-IsConfirmed i h = go i.confirmation i.latest_closed_price refl refl
  where
    go : (c l : Option ℕ) → i.confirmation ≡ c → i.latest_closed_price ≡ l → IsConfirmed i
    go none l ec el = inl ec
    go (some level) none ec el = absurd (ground arith)
    go (some level) (some closed) ec el = inr (level, closed, ec, el, ground arith)

in_zone-IsInZone : (i : Inputs) → in_zone i ≡ true → IsInZone i
unfolding in_zone
in_zone-IsInZone i h = go i.zone_low i.zone_high refl refl
  where
    go : (l r : Option ℕ) → i.zone_low ≡ l → i.zone_high ≡ r → IsInZone i
    go none r el er = absurd (ground arith)
    go (some low) none el er = absurd (ground arith)
    go (some low) (some high) el er = (low, high, el, er, ground arith, ground arith)

becomes_ready :
    (previous : Option Lifecycle) (i : Inputs)
    → (start_from previous i).state ≢ entry_ready
    → (evaluate_setup_lifecycle previous i).state ≡ entry_ready
    → (confirmed i ≡ true)
      × (in_zone i ≡ true)
      × (i.risk_controls_passed ≡ true)
      × (i.is_invalidated ≡ false)
unfolding evaluate_setup_lifecycle
becomes_ready none i old new = ground arith
becomes_ready (some p) i old new = ground arith

-- A setup that was not ready (or is new) becomes ready only if the last closed candle confirms its
-- direction or no confirmation is asked for, the price is in the entry zone, the risk controls
-- passed and the setup is not invalidated.
pub evaluate-entry_ready :
    (previous : Option Lifecycle) (i : Inputs)
    → (start_from previous i).state ≢ entry_ready
    → (evaluate_setup_lifecycle previous i).state ≡ entry_ready
    → IsConfirmed i × IsInZone i × (i.risk_controls_passed ≡ true) × (i.is_invalidated ≡ false)
evaluate-entry_ready previous i old new =
    let (c, z, r, v) = becomes_ready previous i old new in
    (confirmed-IsConfirmed i c, in_zone-IsInZone i z, r, v)
