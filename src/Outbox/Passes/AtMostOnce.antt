-- ===== src/Outbox/Passes/AtMostOnce.antt =====
-- A notification arrives at most once, as long as leases hold and refusals are true.
use vi_xauusd.Prelude.{
  Bool-cases, All, ℕ, zero, suc, ◌≤◌, ◌≡◌, refl, ap, ◌∙◌, ◌⊎◌, inl, inr, Bool, true, false, ◌&&◌,
  none, List, [], ◌∷◌, arith,
}
use vi_xauusd.Outbox.Row.{Row}
use vi_xauusd.Outbox.Claim.Ownership.{is_final}
use vi_xauusd.Outbox.Send.{Answer, Monitors, Environment}
use vi_xauusd.Outbox.Reconcile.{reconcile_row}
use vi_xauusd.Outbox.Passes.{
  OpenDelivery, Life, Step, claims, prepares, answers, reconciliation, superseded, merged,
  claim_pending, delivery_at, open_delivery, close_delivery, step, run, untouched, is_honest,
  is_in_lease, leases_hold, arrivals,
}
use vi_xauusd.Outbox.Passes.Sound.{
  IsSound, IsSoundLife, final-not_due, claim_pending-IsSound, one_delivery_at, open_one-IsSound,
  close_one-IsSound,
}

none_at : (k : ℕ) (ds : List OpenDelivery) → ds ≡ [] → delivery_at k ds ≡ none
none_at zero ds e = rw e refl
none_at (suc k) ds e = rw e refl

open_none : (env : Environment) (x : Life) → open_delivery env x none ≡ x
unfolding open_delivery
open_none env x = refl

close_none : (a : Answer) (b : Bool) (x : Life) → close_delivery a b x none ≡ x
unfolding close_delivery
close_none a b x = refl

same_life :
    (x : Life) (ds : List OpenDelivery)
    → x.deliveries ≡ ds
    → IsSound ds x.accepted x.row.status
    → IsSoundLife x
same_life x ds e h = rw e h

step-IsSound :
    (e : Step) (ds : List OpenDelivery) (x : Life)
    → x.deliveries ≡ ds
    → is_honest e ≡ true
    → is_in_lease e x ≡ true
    → IsSound ds x.accepted x.row.status
    → IsSoundLife (step e x)
unfolding step
step-IsSound (claims q) ds x e t l h = claim_pending-IsSound q ds x e l h
step-IsSound (prepares k env) [] x e t l h =
    rw (none_at k x.deliveries e, open_none env x) (same_life x [] e h)
step-IsSound (prepares k env) (d ∷ []) x e t l h = elim (one_delivery_at k d) [
  | inl out ↦ rw (ap (delivery_at k) e ∙ out, open_none env x) (same_life x (d ∷ []) e h)
  | inr found ↦
      rw (ap (delivery_at k) e ∙ found) (open_one-IsSound env x d d.sending refl e h.0 h.1)
]
step-IsSound (prepares k env) (d ∷ d' ∷ ds) x e t l h = absurd h
step-IsSound (answers k a b) [] x e t l h =
    rw (none_at k x.deliveries e, close_none a b x) (same_life x [] e h)
step-IsSound (answers k a b) (d ∷ []) x e t l h = elim (one_delivery_at k d) [
  | inl out ↦ rw (ap (delivery_at k) e ∙ out, close_none a b x) (same_life x (d ∷ []) e h)
  | inr found ↦
      rw (ap (delivery_at k) e ∙ found) (close_one-IsSound k a b x d d.sending refl t e h.0 h.1)
]
step-IsSound (answers k a b) (d ∷ d' ∷ ds) x e t l h = absurd h
step-IsSound reconciliation [] x e t l h = rw e (unfold reconcile_row in ground (arith, h))
step-IsSound reconciliation (d ∷ []) x e t l h = rw e (ground (arith, h.0, h.1))
step-IsSound reconciliation (d ∷ d' ∷ ds) x e t l h = absurd h
step-IsSound (superseded now) [] x e t l h = rw e (ground (arith, h))
step-IsSound (superseded now) (d ∷ []) x e t l h = rw e (ground (arith, h.0, h.1))
step-IsSound (superseded now) (d ∷ d' ∷ ds) x e t l h = absurd h
step-IsSound (merged now) [] x e t l h = rw e (ground (arith, h))
step-IsSound (merged now) (d ∷ []) x e t l h = rw e (ground (arith, h.0, h.1))
step-IsSound (merged now) (d ∷ d' ∷ ds) x e t l h = absurd h

run-IsSound :
    (es : List Step) (x : Life)
    → All (λ e. is_honest e ≡ true) es
    → leases_hold es x ≡ true
    → IsSoundLife x
    → IsSoundLife (run es x)
unfolding run leases_hold
run-IsSound [] x t l h = h
run-IsSound (e ∷ es) x t l h =
    let (now, later) = both_true (is_in_lease e x) (leases_hold es (step e x)) l in
    run-IsSound es (step e x) t.1 later (step-IsSound e x.deliveries x refl t.0 now h)
  where
    both_true : (a b : Bool) → (a && b) ≡ true → (a ≡ true) × (b ≡ true)
    both_true a b h = ground (arith, h)

arrivals-IsSound :
    (x : Life) (ds : List OpenDelivery)
    → x.deliveries ≡ ds
    → IsSound ds x.accepted x.row.status
    → arrivals x ≤ 1
arrivals-IsSound x [] e h = rw e (ground (arith, h))
arrivals-IsSound x (d ∷ []) e h = rw e (ground (arith, h.0))
arrivals-IsSound x (d ∷ d' ∷ ds) e h = absurd h

-- A final row without an open delivery stays so.
abbrev IsOver : Life → Type 0
IsOver x = (x.deliveries ≡ []) × (x.accepted ≡ 0) × (is_final x.row.status ≡ true)

step-IsOver : (e : Step) (x : Life) → IsOver x → IsOver (step e x)
unfolding step
step-IsOver (claims q) x h = unfold claim_pending in rw (final-not_due q.now q.wanted x.row h.2) h
step-IsOver (prepares k env) x h = rw (none_at k x.deliveries h.0, open_none env x) h
step-IsOver (answers k a b) x h = rw (none_at k x.deliveries h.0, close_none a b x) h
step-IsOver reconciliation x h = unfold reconcile_row in (h.0, h.1, ground (arith, h.2))
step-IsOver (superseded now) x h = (h.0, h.1, ground (arith, h.2))
step-IsOver (merged now) x h = (h.0, h.1, ground (arith, h.2))

run-IsOver : (es : List Step) (x : Life) → IsOver x → IsOver (run es x)
unfolding run
run-IsOver [] x h = h
run-IsOver (e ∷ es) x h = run-IsOver es (step e x) (step-IsOver e x h)

-- Whatever the workers, the reconciliation, the publisher and the merging of events do to a row that
-- nobody is delivering yet, in whatever order: at most one new message of it was accepted by Telegram
-- or is still on its way. This supposes that an answer after which the worker marks the row FAILED (no
-- message id, or an exception that is not a timeout) means that the message was not accepted, and that
-- no worker queries the outbox while a delivery is open whose lease has run out. Of a row that was
-- already delivered, parked or cancelled, none is accepted or on its way.
pub arrivals-le-one :
    (es : List Step) (r : Row) (s : Monitors)
    → All (λ e. is_honest e ≡ true) es
    → leases_hold es (untouched r s) ≡ true
    → (arrivals (run es (untouched r s)) ≤ 1)
      × ((is_final r.status ≡ false) ⊎ (arrivals (run es (untouched r s)) ≡ 0))
arrivals-le-one es r s t l =
    let end = run es (untouched r s) in
    let once =
      arrivals-IsSound end end.deliveries refl (run-IsSound es (untouched r s) t l (inl refl)) in
    elim (Bool-cases (is_final r.status)) [
      | inl final ↦
          let over = run-IsOver es (untouched r s) (refl, refl, final) in
          (once, inr (rw over.0 (omega (arith, over.1))))
      | inr live ↦ (once, inl live)
    ]
