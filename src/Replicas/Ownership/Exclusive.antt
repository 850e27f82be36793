-- ===== src/Replicas/Ownership/Exclusive.antt =====
-- One owner at a time.
use vi_xauusd.Prelude.{
  ◌==◌, Bool-cases, ℕ, ◌+◌, ◌≤◌, ◌<◌, ◌≡◌, sym, ◌∙◌, inl, inr, true, false, false≢true, none, some,
  List, [], ◌∷◌, arith,
}
use vi_xauusd.Replicas.Ownership.{
  Redis, System, Event, waits, acquires, renews, fails, releases, answered, acquire, renew, fail,
  release, step, run,
}

-- What Redis promises: SET NX sets a key that is not there, the scripts touch a key only under its
-- own value, and a key that was set or extended is there until it expires.
pub record IsRedis {S : Type 0} (r : Redis S) : Type 0 where
  pub set_done :
      (s : S) (now i ttl : ℕ)
      → (r.set_nx s now i ttl).0 ≡ true
      → (r.value s now ≡ none)
        × ((t : ℕ) → now ≤ t → t < now + ttl → r.value (r.set_nx s now i ttl).1 t ≡ some i)
  pub set_refused :
      (s : S) (now i ttl t : ℕ)
      → (r.set_nx s now i ttl).0 ≡ false
      → r.value (r.set_nx s now i ttl).1 t ≡ r.value s t
  pub extend_done :
      (s : S) (now i ttl : ℕ)
      → (r.extend s now i ttl).0 ≡ true
      → (r.value s now ≡ some i)
        × ((t : ℕ) → now ≤ t → t < now + ttl → r.value (r.extend s now i ttl).1 t ≡ some i)
  pub extend_refused :
      (s : S) (now i ttl t : ℕ)
      → (r.extend s now i ttl).0 ≡ false
      → r.value (r.extend s now i ttl).1 t ≡ r.value s t
  pub delete_other :
      (s : S) (now i j t : ℕ)
      → r.value s now ≡ some j
      → (j == i) ≡ false
      → r.value (r.delete s now i) t ≡ r.value s t

module _ {S : Type 0} (r : Redis S) (ttl : ℕ) (redis : IsRedis r) where
  -- The key has the token of an owner until its lease ends.
  abbrev pub IsHeld : System S → Type 0
  IsHeld s =
      (i t : ℕ) → s.owned i ≡ true → s.now ≤ t → t < s.renewed i + ttl → r.value s.store t ≡ some i

  acquire-IsHeld : (s : System S) (i : ℕ) → IsHeld s → IsHeld (acquire r ttl s i)
  unfolding acquire answered
  acquire-IsHeld s i held j t own from until = elim (Bool-cases (r.set_nx s.store s.now i ttl).0) [
    | inl ok ↦
        let law = redis.set_done s.store s.now i ttl ok in
        ground (arith, ok, law.0, law.1 t from, held j s.now, held j t, own, until)
    | inr refused ↦ ground (
      arith,
      refused,
      redis.set_refused s.store s.now i ttl t refused,
      held j t,
      own,
      until,
      from,
    )
  ]

  extend-IsHeld :
      (s : System S) (i : ℕ) → IsHeld s → IsHeld (answered r ttl s i (r.extend s.store s.now i ttl))
  unfolding answered
  extend-IsHeld s i held j t own from until = elim (Bool-cases (r.extend s.store s.now i ttl).0) [
    | inl ok ↦
        let law = redis.extend_done s.store s.now i ttl ok in
        ground (arith, ok, law.0, law.1 t from, held j s.now, held j t, own, until)
    | inr refused ↦ ground (
      arith,
      refused,
      redis.extend_refused s.store s.now i ttl t refused,
      held j t,
      own,
      until,
      from,
    )
  ]

  renew-IsHeld : (s : System S) (i : ℕ) → IsHeld s → IsHeld (renew r ttl s i)
  unfolding renew
  renew-IsHeld s i held = elim (Bool-cases (s.owned i)) [
    | inl e ↦ rw e (extend-IsHeld s i held)
    | inr e ↦ rw e held
  ]

  fail-IsHeld : (s : System S) (i : ℕ) → IsHeld s → IsHeld (fail r ttl s i)
  unfolding fail
  fail-IsHeld s i held j t own from until = ground (arith, held j t, own, until, from)

  release-IsHeld : (s : System S) (i : ℕ) → IsHeld s → IsHeld (release r ttl s i)
  unfolding release
  release-IsHeld s i held j t own from until =
      ground
        (arith, held j t, held j s.now, own, until, from, redis.delete_other s.store s.now i j t)

  step-IsHeld : (s : System S) (e : Event) → IsHeld s → IsHeld (step r ttl s e)
  unfolding step
  step-IsHeld s (waits n) held = λ j t own from until. held j t own (omega (arith, from)) until
  step-IsHeld s (acquires i) held = acquire-IsHeld s i held
  step-IsHeld s (renews i) held = renew-IsHeld s i held
  step-IsHeld s (fails i) held = fail-IsHeld s i held
  step-IsHeld s (releases i) held = release-IsHeld s i held

  run-IsHeld : (s : System S) (es : List Event) → IsHeld s → IsHeld (run r ttl s es)
  unfolding run
  run-IsHeld s [] held = held
  run-IsHeld s (e ∷ es) held = run-IsHeld (step r ttl s e) es (step-IsHeld s e held)

-- Over every history of acquisitions, renewals, failures, releases and waiting that starts without an
-- owner, two replicas that both own the scheduler, with leases that have not run out, are the same,
-- and Redis holds its token.
pub run-exclusive :
    {S : Type 0} (r : Redis S) (ttl : ℕ) (s : System S) (es : List Event) (i j : ℕ)
    → IsRedis r
    → ((k : ℕ) → s.owned k ≡ false)
    → (run r ttl s es).owned i ≡ true
    → (run r ttl s es).owned j ≡ true
    → (run r ttl s es).now < (run r ttl s es).renewed i + ttl
    → (run r ttl s es).now < (run r ttl s es).renewed j + ttl
    → (i ≡ j) × (r.value (run r ttl s es).store (run r ttl s es).now ≡ some i)
run-exclusive r ttl s es i j redis fresh own_i own_j live_i live_j =
    let held =
      run-IsHeld r ttl redis s es
        (λ k t own from until. absurd (false≢true (sym (fresh k) ∙ own))) in
    let a = held i (run r ttl s es).now own_i (omega arith) live_i in
    let b = held j (run r ttl s es).now own_j (omega arith) live_j in (ground (arith, sym a ∙ b), a)
