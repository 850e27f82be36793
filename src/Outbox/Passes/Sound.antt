-- ===== src/Outbox/Passes/Sound.antt =====
-- What each step does to a row with at most one open delivery.
use vi_xauusd.Prelude.{
  ltb, Bool-cases, ℕ, zero, suc, ◌+◌, ◌*◌, String, ◌≡◌, refl, ap, ◌⊎◌, inl, inr, Bool, true, false,
  Option, none, some, List, [], ◌∷◌, arith,
}
use vi_xauusd.Outbox.Row.{Status, retrying, cancelled, second, Row, Message}
use vi_xauusd.Outbox.Claim.{is_due, Claim, too_old, stale, lost, won, claim_row}
use vi_xauusd.Outbox.Claim.Ownership.{is_final, claim_row-won}
use vi_xauusd.Outbox.Send.{
  Answer, receipt, receipt_unknown, no_receipt, raised, Monitors, Claimed, Environment, is_edited,
  before_send, finish,
}
use vi_xauusd.Outbox.Reconcile.{}
use vi_xauusd.Outbox.Passes.{
  OpenDelivery, Life, Query, claims, answers, after_claim, claim_pending, delivery_at, opened,
  open_delivery, close_delivery, is_refusal, is_honest, is_in_lease,
}

abbrev pub is_busy : Status → Bool
is_busy retrying = true
is_busy cancelled = true
is_busy _ = false

-- At most one delivery is open, before anything was accepted; once a message was accepted, the row is
-- final.
abbrev pub IsSound : List OpenDelivery → ℕ → Status → Type 0
IsSound [] n st = (n ≡ 0) ⊎ ((n ≡ 1) × (is_final st ≡ true))
IsSound (d ∷ []) n st = (n ≡ 0) × (is_busy st ≡ true)
IsSound (d ∷ e ∷ ds) n st = ⊥

abbrev pub IsSoundLife : Life → Type 0
IsSoundLife x = IsSound x.deliveries x.accepted x.row.status

due-not_final :
    (now : ℕ) (wanted : Option String) (r : Row)
    → is_due now wanted r ≡ true
    → is_final r.status ≡ false
unfolding is_due
due-not_final now none r h = ground arith
due-not_final now (some w) r h = ground arith

-- What a step does to one delivery, or to none.
before_send-status :
    (env : Environment) (c : Claimed) (r : Row) (s : Monitors) (m : Message)
    → (before_send env c (r, s)).1 ≡ some m
    → (before_send env c (r, s)).0.0.status ≡ r.status
unfolding before_send
before_send-status env c r s m h = ground arith

finish-final :
    (a : Answer) (m : Message) (env : Environment) (c : Claimed) (r : Row) (s : Monitors)
    → is_refusal a ≡ false
    → is_final (finish a m env c (r, s)).0.status ≡ true
unfolding finish
finish-final (receipt id) m env c r s h = refl
finish-final receipt_unknown m env c r s h = refl
finish-final no_receipt m env c r s h = absurd (ground (arith, h))
finish-final (raised true name) m env c r s h = refl
finish-final (raised false name) m env c r s h = absurd (ground (arith, h))

claimed-IsSound :
    (q : Query) (x : Life) (taken : Row) (c : Claim)
    → x.deliveries ≡ []
    → x.accepted ≡ 0
    → (c ≡ won → taken.status ≡ retrying)
    → IsSoundLife (after_claim q x (taken, c))
claimed-IsSound q x taken won e n w = rw e (n, rw (w refl) refl)
claimed-IsSound q x taken too_old e n w = rw e (inl n)
claimed-IsSound q x taken stale e n w = rw e (inl n)
claimed-IsSound q x taken lost e n w = rw e (inl n)

claim_row-retrying :
    (q : Query) (r : Row)
    → (claim_row q.worker q.now q.read_current q.subject q.expired r r).1 ≡ won
    → (claim_row q.worker q.now q.read_current q.subject q.expired r r).0.status ≡ retrying
claim_row-retrying q r h =
    ap (λ (t : Row). t.status)
      (claim_row-won q.worker q.now q.read_current q.subject q.expired r r h).0

leased-not_due :
    (now : ℕ) (wanted : Option String) (r : Row)
    → is_busy r.status ≡ true
    → ltb now (r.updated_at + 60 * second) ≡ true
    → is_due now wanted r ≡ false
unfolding is_due
leased-not_due now none r b l = ground arith
leased-not_due now (some w) r b l = ground arith

pub final-not_due :
    (now : ℕ) (wanted : Option String) (r : Row)
    → is_final r.status ≡ true
    → is_due now wanted r ≡ false
unfolding is_due
final-not_due now none r h = ground arith
final-not_due now (some w) r h = ground arith

pub claim_pending-IsSound :
    (q : Query) (ds : List OpenDelivery) (x : Life)
    → x.deliveries ≡ ds
    → is_in_lease (claims q) x ≡ true
    → IsSound ds x.accepted x.row.status
    → IsSoundLife (claim_pending q x)
unfolding claim_pending
claim_pending-IsSound q [] x e l h = elim (Bool-cases (is_due q.now q.wanted x.row)) [
  | inl due ↦
      let n : x.accepted ≡ 0 = elim h [
        | inl z ↦ z
        | inr (_, f) ↦ absurd (ground (arith, due, due-not_final q.now q.wanted x.row due, f))
      ] in
      let (taken, c) = claim_row q.worker q.now q.read_current q.subject q.expired x.row x.row in
      rw due (claimed-IsSound q x taken c e n (claim_row-retrying q x.row))
  | inr idle ↦ rw idle (rw e h)
]
claim_pending-IsSound q (d ∷ []) x e l h =
    let idle = leased-not_due q.now q.wanted x.row h.1 (rw e at l) in rw idle (rw e h)
claim_pending-IsSound q (d ∷ d' ∷ ds) x e l h = absurd h

opened-IsSound :
    (d : OpenDelivery) (env : Environment) (x : Life) (r : Row) (s : Monitors) (o : Option Message)
    → x.accepted ≡ 0
    → is_busy x.row.status ≡ true
    → ((m : Message) → o ≡ some m → r.status ≡ x.row.status)
    → IsSoundLife (opened d [] env x ((r, s), o))
opened-IsSound d env x r s none n b k = inl n
opened-IsSound d env x r s (some m) n b k = (n, rw (k m refl) b)

pub one_delivery_at :
    (k : ℕ) (d : OpenDelivery)
    → (delivery_at k (d ∷ []) ≡ none) ⊎ (delivery_at k (d ∷ []) ≡ some (d, []))
one_delivery_at zero d = inr refl
one_delivery_at (suc k) d = inl refl

pub open_one-IsSound :
    (env : Environment) (x : Life) (d : OpenDelivery) (o : Option (Environment × Message))
    → d.sending ≡ o
    → x.deliveries ≡ d ∷ []
    → x.accepted ≡ 0
    → is_busy x.row.status ≡ true
    → IsSoundLife (open_delivery env x (some (d, [])))
unfolding open_delivery
open_one-IsSound env x d (some p) e ds n b = rw e (rw ds (n, b))
open_one-IsSound env x d none e ds n b =
    let env' = record env { now = d.claimed_at } in
    let ((r, s), o) = before_send env' d.claim (x.row, x.monitors) in
    rw e (opened-IsSound d env' x r s o n b (before_send-status env' d.claim x.row x.monitors))

pub close_one-IsSound :
    (k : ℕ) (a : Answer) (is_accepted : Bool) (x : Life) (d : OpenDelivery)
    (o : Option (Environment × Message))
    → d.sending ≡ o
    → is_honest (answers k a is_accepted) ≡ true
    → x.deliveries ≡ d ∷ []
    → x.accepted ≡ 0
    → is_busy x.row.status ≡ true
    → IsSoundLife (close_delivery a is_accepted x (some (d, [])))
unfolding close_delivery
close_one-IsSound k a is_accepted x d none e t ds n b = rw e (rw ds (n, b))
close_one-IsSound k a true x d (some (env, m)) e t ds n b =
    let final = finish-final a m env d.claim x.row x.monitors (ground (arith, t)) in
    rw e (elim (Bool-cases (is_edited env d.claim)) [
      | inl edit ↦ rw edit (inl (omega (arith, n)))
      | inr new ↦ rw new (inr (omega (arith, n), final))
    ])
close_one-IsSound k a false x d (some (env, m)) e t ds n b = rw e (inl (omega (arith, n)))
