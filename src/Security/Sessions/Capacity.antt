-- ===== src/Security/Sessions/Capacity.antt =====
-- The session store stays within its capacity, and eviction takes an entry that expires first.
use vi_xauusd.Prelude.{
  ltb, ltb→lt, Bool-cases, length, All, ℕ, zero, suc, ◌+◌, ◌-◌, ◌*◌, ◌≤◌, ◌<◌, max, String, ◌≡◌,
  refl, inl, inr, some, [], ◌∷◌, arith, eq_iff, eq_refl,
}
use vi_xauusd.Prelude.Dict.{
  get, pop, length-put, IsUnique, keep, put-IsUnique, pop-IsUnique, keep-IsUnique,
}
use vi_xauusd.Security.Sessions.{
  SessionConfig, Sessions, purge_expired, oldest_from, pop_oldest, evict, session_ttl,
  create_session,
}

length-pop :
    (d : Sessions) (k : String) (v : ℕ) → get d k ≡ some v → suc (length (pop d k)) ≡ length d
unfolding get pop
length-pop [] k v h = cc
length-pop ((j, w) ∷ d) k v h = ground (arith, length-pop d k v)

-- The key that `oldest_from` picks is there, and its value is least.
abbrev IsLeast : String → ℕ → Sessions → String → ℕ → Type 0
IsLeast k v d o x = (get ((k, v) ∷ d) o ≡ some x) × (x ≤ v) × All (λ e. x ≤ e.1) d

oldest_skip :
    (k j o : String) (v w x : ℕ) (d : Sessions)
    → IsUnique ((k, v) ∷ (j, w) ∷ d)
    → w < v
    → IsLeast j w d o x
    → IsLeast k v ((j, w) ∷ d) o x
unfolding get
oldest_skip k j o v w x d u lt h = (ground (arith, eq_iff k o), omega arith, (h.1, h.2))

oldest_stay :
    (k j o : String) (v w x : ℕ) (d : Sessions)
    → IsUnique ((k, v) ∷ (j, w) ∷ d)
    → v ≤ w
    → IsLeast k v d o x
    → IsLeast k v ((j, w) ∷ d) o x
unfolding get
oldest_stay k j o v w x d u le h = (ground (arith, eq_iff j o), h.1, (omega arith, h.2))

without_second :
    (k j : String) (v w : ℕ) (d : Sessions) → IsUnique ((k, v) ∷ (j, w) ∷ d) → IsUnique ((k, v) ∷ d)
unfolding get
without_second k j v w d u = (ground arith, u.1.1)

oldest_from-IsLeast :
    (d : Sessions) (k : String) (v : ℕ)
    → IsUnique ((k, v) ∷ d)
    → (x : ℕ) × IsLeast k v d (oldest_from k v d) x
unfolding oldest_from
oldest_from-IsLeast [] k v u = (v, ((unfold get in ground (arith, eq_refl k)), omega arith, tt))
oldest_from-IsLeast ((j, w) ∷ d) k v u = elim (Bool-cases (ltb w v)) [
  | inl e ↦
      let (x, least) = oldest_from-IsLeast d j w u.1 in
      rw e (x, oldest_skip k j _ v w x d u (ltb→lt w v e) least)
  | inr e ↦
      let (x, least) = oldest_from-IsLeast d k v (without_second k j v w d u) in
      rw e (x, oldest_stay k j _ v w x d u (ground arith) least)
]

-- What eviction takes out is a session that expires no later than any other.
pub pop_oldest_lem :
    (d : Sessions)
    → 0 < length d
    → IsUnique d
    → (k : String) × (x : ℕ) × (get d k ≡ some x) × (pop_oldest d ≡ pop d k) × All (λ e. x ≤ e.1) d
unfolding pop_oldest
pop_oldest_lem [] h u = elim h [ ]
pop_oldest_lem ((k, v) ∷ d) h u =
    let (x, least) = oldest_from-IsLeast d k v u in
    (oldest_from k v d, x, least.0, refl, (least.1, least.2))

length-pop_oldest : (d : Sessions) → IsUnique d → length (pop_oldest d) ≡ length d - 1
unfolding pop_oldest
length-pop_oldest [] u = refl
length-pop_oldest ((k, v) ∷ d) u =
    let (x, least) = oldest_from-IsLeast d k v u in
    omega (arith, length-pop ((k, v) ∷ d) (oldest_from k v d) x least.0)

pop_oldest-IsUnique : (d : Sessions) → IsUnique d → IsUnique (pop_oldest d)
unfolding pop_oldest
pop_oldest-IsUnique [] u = tt
pop_oldest-IsUnique ((k, v) ∷ d) u = pop-IsUnique ((k, v) ∷ d) (oldest_from k v d) u

pub evict-IsUnique : (fuel cap : ℕ) (d : Sessions) → IsUnique d → IsUnique (evict fuel cap d)
unfolding evict
evict-IsUnique zero cap d u = u
evict-IsUnique (suc fuel) cap d u =
    ground (arith, evict-IsUnique fuel cap (pop_oldest d) (pop_oldest-IsUnique d u))

-- With as much fuel as there are sessions the loop ends by its test.
pub length-evict :
    (fuel cap : ℕ) (d : Sessions)
    → IsUnique d
    → length d ≤ fuel
    → 0 < cap
    → length (evict fuel cap d) < cap
unfolding evict
length-evict zero cap d u h c = omega arith
length-evict (suc fuel) cap d u h c =
    ground
      (arith, length-pop_oldest d u, length-evict fuel cap (pop_oldest d) (pop_oldest-IsUnique d u))

-- Creating a session keeps the keys of the store different and the number of sessions within
-- `max_admin_sessions` (at least one), however many were stored before.
pub create_session-IsBounded :
    (s : SessionConfig) (sid : String) (purge_now now : ℕ) (d : Sessions)
    → IsUnique d
    → IsUnique (create_session s sid purge_now now d).0
      × (length (create_session s sid purge_now now d).0 ≤ max 1 s.max_admin_sessions)
unfolding create_session purge_expired
create_session-IsBounded s sid purge_now now d u =
    let live = keep (λ exp. ltb purge_now exp) d in
    let unique = keep-IsUnique (λ exp. ltb purge_now exp) d u in
    let cap = max 1 s.max_admin_sessions in
    let rest = evict (length live) cap live in
    (
      put-IsUnique rest sid _ (evict-IsUnique (length live) cap live unique),
      omega (
        arith,
        length-put rest sid (now + session_ttl s * 1000000),
        length-evict (length live) cap live unique (omega arith) (omega arith),
      ),
    )
