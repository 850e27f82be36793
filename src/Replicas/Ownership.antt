-- ===== src/Replicas/Ownership.antt =====
-- app/services/scheduler_ownership.py: replicas with their tokens, which are numbers, and one key in
-- Redis. The commands of Redis are the record Redis; a token's `renewed` is when its replica last set
-- or extended the key, which the code leaves to Redis.
pub mod Exclusive
use vi_xauusd.Prelude.{◌==◌, if◌then◌else◌, ℕ, ◌+◌, Bool, false, Option, List, [], ◌∷◌}

-- GET, SET NX EX and the two scripts, at a time in seconds.
pub record Redis (S : Type 0) : Type 0 where
  pub value : S → ℕ → Option ℕ
  pub set_nx : S → ℕ → ℕ → ℕ → Bool × S
  pub extend : S → ℕ → ℕ → ℕ → Bool × S
  pub delete : S → ℕ → ℕ → S

pub record System (S : Type 0) : Type 0 where
  pub store : S
  pub now : ℕ
  pub owned : ℕ → Bool
  pub renewed : ℕ → ℕ

pub data Event : Type 0 where
  waits acquires renews fails releases : ℕ → Event

abbrev pub set_at {ℓ} : {A : Type ℓ} → ℕ → A → (ℕ → A) → ℕ → A
set_at i v f j = if j == i then v else f j

module _ {S : Type 0} (r : Redis S) (ttl : ℕ) where
  -- `owned` is what Redis answers.
  unfoldable pub answered : System S → ℕ → Bool × S → System S
  answered s i (ok, store) = record s {
    store = store;
    owned = set_at i ok s.owned;
    renewed = if ok then set_at i s.now s.renewed else s.renewed;
  }

  unfoldable pub acquire : System S → ℕ → System S
  unfolding answered
  acquire s i = answered s i (r.set_nx s.store s.now i ttl)

  -- One round of `_renew`, which runs while the replica owns the key.
  unfoldable pub renew : System S → ℕ → System S
  unfolding answered
  renew s i = if s.owned i then answered s i (r.extend s.store s.now i ttl) else s

  -- An exception of Redis, on acquiring as on renewing.
  unfoldable pub fail : System S → ℕ → System S
  fail s i = record s { owned = set_at i false s.owned }

  unfoldable pub release : System S → ℕ → System S
  release s i = record s { owned = set_at i false s.owned; store = r.delete s.store s.now i }

  unfoldable pub step : System S → Event → System S
  unfolding acquire renew fail release
  step s (waits n) = record s { now = s.now + n }
  step s (acquires i) = acquire s i
  step s (renews i) = renew s i
  step s (fails i) = fail s i
  step s (releases i) = release s i

  unfoldable pub run : System S → List Event → System S
  unfolding step
  run s [] = s
  run s (e ∷ es) = run (step s e) es
