-- ===== src/LiveBias/Direction.antt =====
-- Which direction may be executed.
use vi_xauusd.Prelude.{
  if◌then◌else◌, Bool-cases, ◌≡◌, refl, sym, ap, ◌∙◌, ◌⊎◌, inl, inr, Bool, true, false, ◌&&◌,
  false≢true, Option,
}
use vi_xauusd.LiveBias.Level.{Side, long, short, no_side, is_side}
use vi_xauusd.LiveBias.{
  Settings, LiveState, aligned, weakening, reversal_candidate, Bias, allow, watch, neutral, Look,
  Snapshot, before, challenged, closed_invalidated, closed_restored, is_new_close, is_dead_feed,
  opposite, was_challenged, aligned_bias, persistent, decide, resolve_direction_conflict,
}
use mathlib.Core.Path.{subst}

-- A sound feed, no new close that ends the direction, and a live price that has not reached the level.
abbrev pub IsUndisputed : Settings → Option Snapshot → Look → Type 0
IsUndisputed c p l =
    (is_dead_feed l.data_health ≡ false)
    × ((closed_invalidated c l && is_new_close l.closed_time (before l.side p).3) ≡ false)
    × (challenged l ≡ false)

-- What a decision says of the direction that it allows or watches.
IsWarranted : Settings → Option Snapshot → Look → LiveState × Bias → Type 0
IsWarranted c p l (state, allow s) = (s ≡ l.side) × (state ≡ aligned) × IsUndisputed c p l
IsWarranted c p l (state, watch s) =
    ((s ≡ l.side) × (state ≡ weakening) × (challenged l ≡ true))
    ⊎ ((s ≡ opposite l.side)
        × (state ≡ reversal_candidate)
        × (closed_invalidated c l ≡ true)
        × (is_new_close l.closed_time (before l.side p).3 ≡ true))
IsWarranted c p l (state, neutral) = Unit

and_both : (a b : Bool) → (a && b) ≡ true → (a ≡ true) × (b ≡ true)
and_both true b h = (refl, h)
and_both false b h = absurd (false≢true h)

is_side_refl : (s : Side) → is_side s s ≡ true
is_side_refl long = refl
is_side_refl short = refl
is_side_refl no_side = refl

aligned_bias-IsWarranted :
    (c : Settings) (p : Option Snapshot) (l : Look)
    → IsUndisputed c p l
    → (s : Side) → s ≡ l.side
    → IsWarranted c p l (aligned, aligned_bias s)
unfolding IsWarranted
aligned_bias-IsWarranted c p l u long e = (e, refl, u)
aligned_bias-IsWarranted c p l u short e = (e, refl, u)
aligned_bias-IsWarranted c p l u no_side e = tt

undisputed :
    (c : Settings) (p : Option Snapshot) (l : Look)
    → IsUndisputed c p l
    → IsWarranted c p l (
        if was_challenged (before l.side p).0
          && is_new_close l.closed_time (before l.side p).3
          && closed_restored l
        then (aligned, allow l.side)
        else (aligned, aligned_bias l.side))
unfolding IsWarranted
undisputed c p l u =
    elim (Bool-cases (
      was_challenged (before l.side p).0
      && is_new_close l.closed_time (before l.side p).3
      && closed_restored l)) [
        | inl e ↦ rw e (refl, refl, u)
        | inr e ↦ rw e (aligned_bias-IsWarranted c p l u l.side refl)
      ]

decide-IsWarranted :
    (c : Settings) (p : Option Snapshot) (l : Look) → IsWarranted c p l (decide c p l)
unfolding decide IsWarranted
decide-IsWarranted c p l = elim (Bool-cases (is_dead_feed l.data_health)) [
  | inl a ↦ rw a tt
  | inr a ↦
      elim (Bool-cases (closed_invalidated c l && is_new_close l.closed_time (before l.side p).3)) [
        | inl b ↦ let k = and_both _ _ b in rw a (rw b (inr (refl, refl, k.0, k.1)))
        | inr b ↦ elim (Bool-cases (persistent c p l)) [
          | inl d ↦ rw a (rw b (rw d tt))
          | inr d ↦ elim (Bool-cases (challenged l)) [
            | inl e ↦ rw a (rw b (rw d (rw e (inl (refl, refl, e)))))
            | inr e ↦
                let u : IsUndisputed c p l = (a, b, e) in
                rw a (rw b (rw d (rw e (undisputed c p l u))))
          ]
        ]
      ]
]

-- The opposite direction is watched only at a new closed candle beyond the level and its buffer.
pub resolve-watch :
    (c : Settings) (p : Option Snapshot) (l : Look) (s : Side)
    → (resolve_direction_conflict c p l).0.execution ≡ watch s
    → is_side s l.side ≡ false
    → (s ≡ opposite l.side)
      × ((resolve_direction_conflict c p l).0.live_state ≡ reversal_candidate)
      × (closed_invalidated c l ≡ true)
      × (is_new_close l.closed_time (before l.side p).3 ≡ true)
unfolding resolve_direction_conflict IsWarranted
resolve-watch c p l s h n =
    elim (subst (λ b. IsWarranted c p l ((decide c p l).0, b)) h (decide-IsWarranted c p l)) [
      | inl own ↦
          absurd (false≢true (sym n ∙ ap (λ x. is_side x l.side) own.0 ∙ is_side_refl l.side))
      | inr k ↦ k
    ]
