-- ===== src/Outbox/Passes/Identity.antt =====
-- A row stays the row of its event.
use vi_xauusd.Prelude.{String, ◌≡◌, refl, Bool, Option, none, some, List, arith}
use vi_xauusd.Outbox.Row.{Row, Message}
use vi_xauusd.Outbox.Claim.{Claim, won, claim_row}
use vi_xauusd.Outbox.Send.{Answer, Monitors, Claimed, Environment, before_send, finish}
use vi_xauusd.Outbox.Reconcile.{reconcile_row}
use vi_xauusd.Outbox.Passes.{
  OpenDelivery, Life, Query, Step, claims, prepares, answers, reconciliation, superseded, merged,
  after_claim, claim_pending, delivery_at, opened, open_delivery, close_delivery, step,
}

-- No step of its life changes which event a row is of.
claimed-event_id :
    (q : Query) (x : Life) (r : Row) (c : Claim)
    → r.event_id ≡ x.row.event_id
    → (after_claim q x (r, c)).row.event_id ≡ x.row.event_id
claimed-event_id q x r won e = e
claimed-event_id q x r _ e = e

claim_row-event_id :
    (worker : String) (q : Query) (r : Row)
    → (claim_row worker q.now q.read_current q.subject q.expired r r).0.event_id ≡ r.event_id
unfolding claim_row
claim_row-event_id worker q r = ground arith

claim_pending-event_id : (q : Query) (x : Life) → (claim_pending q x).row.event_id ≡ x.row.event_id
unfolding claim_pending
claim_pending-event_id q x =
    let (r, c) = claim_row q.worker q.now q.read_current q.subject q.expired x.row x.row in
    ground (arith, claimed-event_id q x r c (claim_row-event_id q.worker q x.row))

before_send-event_id :
    (env : Environment) (c : Claimed) (r : Row) (s : Monitors)
    → (before_send env c (r, s)).0.0.event_id ≡ r.event_id
unfolding before_send
before_send-event_id env c r s = ground arith

finish-event_id :
    (a : Answer) (m : Message) (env : Environment) (c : Claimed) (r : Row) (s : Monitors)
    → (finish a m env c (r, s)).0.event_id ≡ r.event_id
unfolding finish
finish-event_id a m env c r s = ground arith

opened-event_id :
    (d : OpenDelivery) (ds : List OpenDelivery) (env : Environment) (x : Life) (r : Row)
    (s : Monitors) (o : Option Message)
    → r.event_id ≡ x.row.event_id
    → (opened d ds env x ((r, s), o)).row.event_id ≡ x.row.event_id
opened-event_id d ds env x r s none e = e
opened-event_id d ds env x r s (some m) e = e

open-event_id :
    (env : Environment) (x : Life) (d : OpenDelivery) (ds : List OpenDelivery)
    (o : Option (Environment × Message))
    → d.sending ≡ o
    → (open_delivery env x (some (d, ds))).row.event_id ≡ x.row.event_id
unfolding open_delivery
open-event_id env x d ds (some p) e = simp e refl
open-event_id env x d ds none e =
    let env' = record env { now = d.claimed_at } in
    let ((r, s), o) = before_send env' d.claim (x.row, x.monitors) in
    rw e (opened-event_id d ds env' x r s o (before_send-event_id env' d.claim x.row x.monitors))

close-event_id :
    (a : Answer) (b : Bool) (x : Life) (d : OpenDelivery) (ds : List OpenDelivery)
    (o : Option (Environment × Message))
    → d.sending ≡ o
    → (close_delivery a b x (some (d, ds))).row.event_id ≡ x.row.event_id
unfolding close_delivery
close-event_id a b x d ds none e = rw e refl
close-event_id a b x d ds (some (env, m)) e =
    rw e (finish-event_id a m env d.claim x.row x.monitors)

opens-event_id :
    (env : Environment) (x : Life) (o : Option (OpenDelivery × List OpenDelivery))
    → (open_delivery env x o).row.event_id ≡ x.row.event_id
opens-event_id env x none = unfold open_delivery in refl
opens-event_id env x (some (d, ds)) = open-event_id env x d ds d.sending refl

closes-event_id :
    (a : Answer) (b : Bool) (x : Life) (o : Option (OpenDelivery × List OpenDelivery))
    → (close_delivery a b x o).row.event_id ≡ x.row.event_id
closes-event_id a b x none = unfold close_delivery in refl
closes-event_id a b x (some (d, ds)) = close-event_id a b x d ds d.sending refl

pub step-event_id : (e : Step) (x : Life) → (step e x).row.event_id ≡ x.row.event_id
unfolding step
step-event_id (claims q) x = claim_pending-event_id q x
step-event_id (prepares k env) x = opens-event_id env x (delivery_at k x.deliveries)
step-event_id (answers k a b) x = closes-event_id a b x (delivery_at k x.deliveries)
step-event_id reconciliation x = unfold reconcile_row in ground arith
step-event_id (superseded now) x = ground arith
step-event_id (merged now) x = ground arith
