-- ===== src/Security/RateLimit.antt =====
-- app/security.py, throttling: a cooldown per key and a sliding window per key. Times are those of
-- the monotonic clock, in milliseconds; a negative cooldown is 0 here, which the code treats alike.
-- A refusal is HTTP 429 with the seconds to wait; the
-- look at the oldest hit fails where there is none, which takes a limit of 0 attempts.
pub mod Cooldown
pub mod Window
use vi_xauusd.Prelude.{
  ltb, leb, if◌then◌else◌, or_else, and_some, length, drop, filter, ℕ, ◌+◌, ◌-◌, ◌/◌, max, String,
  List, [], ◌∷◌, ◌++◌,
}
use vi_xauusd.Prelude.Dict.{Dict, get, put}

pub data Verdict : Type 0 where
  accepted : Verdict
  too_many_requests : ℕ → Verdict
  index_error : Verdict

abbrev pub max_rate_keys : ℕ
max_rate_keys = 512

-- `_trim_rate_keys_locked`
pub trim_rate_keys {ℓ} : {V : Type ℓ} → Dict V → Dict V
trim_rate_keys store =
    if ltb max_rate_keys (length store) then drop (length store - max_rate_keys) store else store

unfoldable pub rate_limit : String → ℕ → ℕ → Dict ℕ → Verdict × Dict ℕ
unfolding trim_rate_keys
rate_limit key cooldown now store =
    if leb cooldown 0
    then (accepted, store)
    else if and_some (get store key) (λ last. ltb now (last + cooldown))
    then (too_many_requests (max 1 ((cooldown - (now - or_else (get store key) 0)) / 1000)), store)
    else (accepted, trim_rate_keys (put store key now))

-- The hits that are inside the window.
pub recent : ℕ → ℕ → List ℕ → List ℕ
recent window now hits = filter (λ t. ltb now (t + window)) hits

refuse : String → ℕ → ℕ → List ℕ → Dict (List ℕ) → Verdict × Dict (List ℕ)
refuse key window now [] store = (index_error, store)
refuse key window now (t ∷ ts) store =
    (too_many_requests (max 1 ((window - (now - t)) / 1000)), put store key (t ∷ ts))

unfoldable pub rate_limit_window : String → ℕ → ℕ → ℕ → Dict (List ℕ) → Verdict × Dict (List ℕ)
unfolding trim_rate_keys recent refuse
rate_limit_window key max_attempts window now store =
    let hits = recent window now (or_else (get store key) []) in
    if leb max_attempts (length hits)
    then refuse key window now hits store
    else (accepted, trim_rate_keys (put store key (hits ++ now ∷ [])))
