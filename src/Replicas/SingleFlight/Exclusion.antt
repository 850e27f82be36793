-- ===== src/Replicas/SingleFlight/Exclusion.antt =====
-- At most one task of a key at a time.
use vi_xauusd.Prelude.{
  ◌==◌, or_else, Bool-cases, All, ℕ, ◌<◌, String, ◌≡◌, refl, sym, ap, ◌∙◌, ◌⊎◌, inl, inr, Bool,
  true, false, false≢true, Option, none, some, List, [], ◌∷◌, arith, eq_iff,
}
use vi_xauusd.Replicas.SingleFlight.{
  Flight, Event, calls, starts, finishes, reaps, start, launch, is_free, lock_for_loop, join, call,
  found_task, awaited, begin, finish, reap, step, run,
}

-- Every task that is not done is the one that its key leads to.
abbrev pub IsTracked : Flight → Type 0
IsTracked s = (i : ℕ) → i < s.next → s.done i ≡ false → s.inflight (s.key_of i) ≡ some i

free_key :
    (s : Flight) (k : String) (i : ℕ)
    → is_free s (s.inflight k) ≡ true
    → s.inflight (s.key_of i) ≡ some i
    → s.done i ≡ false
    → ¬ (s.key_of i ≡ k)
free_key s k i free e live same =
    false≢true (sym live ∙ sym (ap (is_free s) (sym (ap s.inflight same) ∙ e)) ∙ free)

launch-IsTracked :
    (s : Flight) (k : String)
    → is_free s (s.inflight k) ≡ true
    → IsTracked s
    → IsTracked (launch s k)
launch-IsTracked s k free t i lt live = elim (Bool-cases (i == s.next)) [
  | inl e ↦ ground (arith, e, eq_iff (k) k)
  | inr e ↦ ground (arith, e, t i, free_key s k i free, eq_iff (s.key_of i) k)
]

join-IsTracked : (s : Flight) (k : String) → IsTracked s → IsTracked (join s k)
unfolding join
join-IsTracked s k t = elim (Bool-cases (is_free s (s.inflight k))) [
  | inl e ↦ rw e (launch-IsTracked s k e t)
  | inr e ↦ rw e t
]

begin-IsTracked : (s : Flight) (k : ℕ) → IsTracked s → IsTracked (begin s k)
unfolding begin
begin-IsTracked s k t i lt live = ground (arith, t i)

finish-IsTracked : (s : Flight) (k : ℕ) → IsTracked s → IsTracked (finish s k)
unfolding finish
finish-IsTracked s k t i lt live = ground (arith, t i)

reap-IsTracked : (s : Flight) (k : ℕ) → IsTracked s → IsTracked (reap s k)
unfolding reap
reap-IsTracked s k t i lt live = ground (arith, t i, eq_iff (s.key_of i) (s.key_of k))

-- All calls so far were on the loop, or there were none.
abbrev IsOnLoop : ℕ → Flight → Type 0
IsOnLoop l s = (s.loop ≡ some l) ⊎ (s.next ≡ 0)

abbrev pub is_on : ℕ → Event → Bool
is_on l (calls m k) = m == l
is_on l _ = true

lock-loop : (s : Flight) (l : ℕ) → (lock_for_loop s l).loop ≡ some l
unfolding lock_for_loop
lock-loop s l = ground arith

lock-IsTracked : (s : Flight) (l : ℕ) → IsOnLoop l s → IsTracked s → IsTracked (lock_for_loop s l)
unfolding lock_for_loop
lock-IsTracked s l o t i lt live = ground (arith, o, t i)

join-loop : (s : Flight) (k : String) → (join s k).loop ≡ s.loop
unfolding join
join-loop s k = ground arith

step-IsOnLoop :
    (l : ℕ) (s : Flight) (e : Event) → is_on l e ≡ true → IsOnLoop l s → IsOnLoop l (step s e)
unfolding step call
step-IsOnLoop l s (calls m k) h o =
    let same : m ≡ l = ground (arith, h) in
    inl (join-loop (lock_for_loop s m) k ∙ lock-loop s m ∙ ap some same)
step-IsOnLoop l s (starts i) h o = unfold begin in ground (arith, o)
step-IsOnLoop l s (finishes i) h o = unfold finish in ground (arith, o)
step-IsOnLoop l s (reaps i) h o = unfold reap in ground (arith, o)

step-IsTracked :
    (l : ℕ) (s : Flight) (e : Event)
    → is_on l e ≡ true
    → IsOnLoop l s
    → IsTracked s
    → IsTracked (step s e)
unfolding step call
step-IsTracked l s (calls m k) h o t =
    let same : m ≡ l = ground (arith, h) in
    join-IsTracked (lock_for_loop s m) k (lock-IsTracked s m (rw same o) t)
step-IsTracked l s (starts i) h o t = begin-IsTracked s i t
step-IsTracked l s (finishes i) h o t = finish-IsTracked s i t
step-IsTracked l s (reaps i) h o t = reap-IsTracked s i t

run-IsTracked :
    (l : ℕ) (s : Flight) (es : List Event)
    → All (λ e. is_on l e ≡ true) es
    → IsOnLoop l s
    → IsTracked s
    → IsTracked (run s es) × IsOnLoop l (run s es)
unfolding run
run-IsTracked l s [] h o t = (t, o)
run-IsTracked l s (e ∷ es) h o t =
    run-IsTracked l (step s e) es h.1 (step-IsOnLoop l s e h.0 o) (step-IsTracked l s e h.0 o t)

-- A key leads to a task of its own.
abbrev pub IsKeyed : Flight → Type 0
IsKeyed s = (k : String) (i : ℕ) → s.inflight k ≡ some i → (i < s.next) × (s.key_of i ≡ k)

join-IsKeyed : (s : Flight) (k : String) → IsKeyed s → IsKeyed (join s k)
unfolding join
join-IsKeyed s k t j i e = ground (arith, t j i, eq_iff j k)

lock-IsKeyed : (s : Flight) (l : ℕ) → IsKeyed s → IsKeyed (lock_for_loop s l)
unfolding lock_for_loop
lock-IsKeyed s l t k i e = ground (arith, t k i)

begin-IsKeyed : (s : Flight) (k : ℕ) → IsKeyed s → IsKeyed (begin s k)
unfolding begin
begin-IsKeyed s k t j i e = ground (arith, t j i)

finish-IsKeyed : (s : Flight) (k : ℕ) → IsKeyed s → IsKeyed (finish s k)
unfolding finish
finish-IsKeyed s k t j i e = ground (arith, t j i)

reap-IsKeyed : (s : Flight) (k : ℕ) → IsKeyed s → IsKeyed (reap s k)
unfolding reap
reap-IsKeyed s k t j i e = ground (arith, t j i)

step-IsKeyed : (s : Flight) (e : Event) → IsKeyed s → IsKeyed (step s e)
unfolding step call
step-IsKeyed s (calls l k) t = join-IsKeyed (lock_for_loop s l) k (lock-IsKeyed s l t)
step-IsKeyed s (starts i) t = begin-IsKeyed s i t
step-IsKeyed s (finishes i) t = finish-IsKeyed s i t
step-IsKeyed s (reaps i) t = reap-IsKeyed s i t

run-IsKeyed : (s : Flight) (es : List Event) → IsKeyed s → IsKeyed (run s es)
unfolding run
run-IsKeyed s [] t = t
run-IsKeyed s (e ∷ es) t = run-IsKeyed (step s e) es (step-IsKeyed s e t)

-- A task that a call waits for has its key.
awaited_ofkey :
    (s : Flight) (k : String) (o : Option ℕ)
    → s.inflight k ≡ o
    → is_free s o ≡ false
    → IsKeyed s
    → (or_else o 0 < s.next) × (s.done (or_else o 0) ≡ false) × (s.key_of (or_else o 0) ≡ k)
awaited_ofkey s k none e busy d = absurd (false≢true (sym busy))
awaited_ofkey s k (some i) e busy d = ((d k i e).0, busy, (d k i e).1)

found_live :
    (s : Flight) (k : String)
    → IsKeyed s
    → (found_task s k < (join s k).next)
      × ((join s k).done (found_task s k) ≡ false)
      × ((join s k).key_of (found_task s k) ≡ k)
unfolding found_task join
found_live s k d = elim (Bool-cases (is_free s (s.inflight k))) [
  | inl e ↦ rw e (ground arith, ground arith, ground arith)
  | inr e ↦ rw e (awaited_ofkey s k (s.inflight k) refl e d)
]

awaited_live :
    (s : Flight) (l : ℕ) (k : String)
    → IsKeyed s
    → (awaited s l k < (call s l k).next)
      × ((call s l k).done (awaited s l k) ≡ false)
      × ((call s l k).key_of (awaited s l k) ≡ k)
unfolding awaited call
awaited_live s l k d = found_live (lock_for_loop s l) k (lock-IsKeyed s l d)

some_same : {i j : ℕ} → some i ≡ some j → i ≡ j
some_same e = ground (arith, e)

-- At most one task of a key is under way, whatever the order of the calls of one event loop and of
-- starts, ends and reaps; and a call on any loop then waits for a task that is under way and has the
-- key of the call.
pub run-single :
    (l m : ℕ) (es : List Event) (k : String) (i j : ℕ)
    → All (λ e. is_on l e ≡ true) es
    → (i < (run start es).next)
    → (j < (run start es).next)
    → ((run start es).done i ≡ false)
    → ((run start es).done j ≡ false)
    → ((run start es).key_of i ≡ (run start es).key_of j)
    → (i ≡ j)
      × (awaited (run start es) m k < (call (run start es) m k).next)
      × ((call (run start es) m k).done (awaited (run start es) m k) ≡ false)
      × ((call (run start es) m k).key_of (awaited (run start es) m k) ≡ k)
run-single l m es k i j on lt_i lt_j live_i live_j same =
    let s = run start es in
    let t = (run-IsTracked l start es on (inr refl) (λ a lt live. absurd (omega (arith, lt)))).0 in
    let w = awaited_live s m k (run-IsKeyed start es (λ a b e. ground (arith, e))) in
    (some_same (sym (t i lt_i live_i) ∙ ap s.inflight same ∙ t j lt_j live_j), w.0, w.1, w.2)
