-- ===== src/Security/RateLimit/Cooldown.antt =====
-- The cooldown: two accepted hits of one key are a cooldown apart, and the table stays small.
use vi_xauusd.Prelude.{
  ltb, if◌then◌else◌, Option-cases, length, drop, length-append, length-drop, ℕ, zero, suc, ◌+◌,
  ◌-◌, ◌/◌, ◌≤◌, ◌<◌, max, String, ◌≡◌, refl, inl, inr, none, some, [], ◌∷◌, ◌++◌, arith, eq_refl,
}
use vi_xauusd.Prelude.Dict.{Dict, get, put, get-put_lem}
use vi_xauusd.Security.RateLimit.{
  accepted, too_many_requests, max_rate_keys, trim_rate_keys, rate_limit,
}

module _ {ℓ} {V : Type ℓ} where
  pub length-put_present :
      (d : Dict V) (k : String) (v w : V) → get d k ≡ some w → length (put d k v) ≡ length d
  unfolding get put
  length-put_present [] k v w h = cc
  length-put_present ((j, x) ∷ d) k v w h = ground (arith, length-put_present d k v w)

  put_absent : (d : Dict V) (k : String) (v : V) → get d k ≡ none → put d k v ≡ d ++ (k, v) ∷ []
  unfolding get put
  put_absent [] k v h = refl
  put_absent ((j, x) ∷ d) k v h = ground (arith, put_absent d k v)

  -- The entry written last survives when entries before it are dropped.
  get-drop-append :
      (n : ℕ) (d : Dict V) (k : String) (v : V)
      → n ≤ length d
      → get d k ≡ none
      → get (drop n (d ++ (k, v) ∷ [])) k ≡ some v
  unfolding get
  get-drop-append zero [] k v h e = ground (arith, eq_refl k)
  get-drop-append zero ((j, x) ∷ d) k v h e = ground (arith, get-drop-append zero d k v)
  get-drop-append (suc n) [] k v h e = absurd (omega arith)
  get-drop-append (suc n) ((j, x) ∷ d) k v h e = ground (arith, get-drop-append n d k v)

  pub get-trim-put :
      (d : Dict V) (k : String) (v : V)
      → length d ≤ max_rate_keys
      → get (trim_rate_keys (put d k v)) k ≡ some v
  unfolding trim_rate_keys
  get-trim-put d k v h = elim (Option-cases (get d k)) [
    | inl e ↦ rw (put_absent d k v e) (
        ground (
          arith,
          length-append d ((k, v) ∷ []),
          get-drop-append zero d k v,
          get-drop-append (length (d ++ (k, v) ∷ []) - 512) d k v,
        ))
    | inr (w, e) ↦ ground (arith, length-put_present d k v w e, get-put_lem d k k v, eq_refl k)
  ]

  pub length-trim : (d : Dict V) → length (trim_rate_keys d) ≤ max_rate_keys
  unfolding trim_rate_keys
  length-trim d = ground (arith, length-drop (length d - max_rate_keys) d)

-- The table of the cooldown keeps at most 512 keys, whatever the call.
pub rate_limit-IsBounded :
    (key : String) (cooldown now : ℕ) (store : Dict ℕ)
    → length store ≤ max_rate_keys
    → length (rate_limit key cooldown now store).1 ≤ max_rate_keys
unfolding rate_limit
rate_limit-IsBounded key cooldown now store h = ground (arith, length-trim (put store key now))

get-rate_limit :
    (key : String) (cooldown now : ℕ) (store : Dict ℕ)
    → length store ≤ max_rate_keys
    → 0 < cooldown
    → (rate_limit key cooldown now store).0 ≡ accepted
    → get (rate_limit key cooldown now store).1 key ≡ some now
unfolding rate_limit
get-rate_limit key cooldown now store small c ok = ground (arith, get-trim-put store key now small)

rate_limit_again :
    (key : String) (cooldown now later : ℕ) (store : Dict ℕ)
    → 0 < cooldown
    → get store key ≡ some now
    → rate_limit key cooldown later store ≡ (
        if ltb later (now + cooldown)
        then (too_many_requests (max 1 ((cooldown - (later - now)) / 1000)), store)
        else (accepted, trim_rate_keys (put store key later)))
unfolding rate_limit
rate_limit_again key cooldown now later store c e = rw e (ground arith)

-- After an accepted hit at `now`, the next call for the same key is accepted exactly if it comes a
-- cooldown later. Before that it is refused, told the rest of the cooldown in whole seconds and at
-- least one, and leaves the table as it was.
pub rate_limit_next :
    (key : String) (cooldown now later : ℕ) (store : Dict ℕ)
    → length store ≤ max_rate_keys
    → 0 < cooldown
    → (rate_limit key cooldown now store).0 ≡ accepted
    → let after = (rate_limit key cooldown now store).1 in
      let next = rate_limit key cooldown later after in
      let refused = ltb later (now + cooldown) in
      (next.0 ≡ (
        if refused
        then too_many_requests (max 1 ((cooldown - (later - now)) / 1000))
        else accepted))
      × ((if refused then next.1 else after) ≡ after)
rate_limit_next key cooldown now later store small c ok = ground (
  arith,
  rate_limit_again key cooldown now later (rate_limit key cooldown now store).1 c
      (get-rate_limit key cooldown now store small c ok),
)
