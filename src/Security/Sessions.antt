-- ===== src/Security/Sessions.antt =====
-- app/security.py, the in-process session store: session id to expiry time, in microseconds. What
-- `secrets.token_urlsafe` returns and the two readings of the clock that a function makes are
-- arguments.
pub mod Capacity
pub mod Validity
use vi_xauusd.Prelude.{
  ltb, leb, if◌then◌else◌, and_some, length, ℕ, zero, suc, ◌+◌, ◌*◌, max, String, Bool, true, false,
  Option, none, some, [], ◌∷◌, str_eq,
}
use vi_xauusd.Prelude.Dict.{Dict, get, put, pop, keep}

pub record SessionConfig : Type 0 where
  pub admin_session_ttl_minutes : ℕ
  pub max_admin_sessions : ℕ

abbrev pub Sessions : Type 0
Sessions = Dict ℕ

-- `_purge_expired_locked`
unfoldable pub purge_expired : ℕ → Sessions → Sessions
purge_expired now = keep (λ exp. ltb now exp)

-- The first of the keys whose value is least, as `min` returns it.
pub oldest_from : String → ℕ → Sessions → String
oldest_from k v [] = k
oldest_from k v ((j, w) ∷ d) = oldest_from (if ltb w v then j else k) (if ltb w v then w else v) d

unfoldable pub pop_oldest : Sessions → Sessions
unfolding oldest_from
pop_oldest [] = []
pop_oldest ((k, v) ∷ d) = pop ((k, v) ∷ d) (oldest_from k v d)

-- `while len(_sessions) >= cap`, on fuel.
unfoldable pub evict : ℕ → ℕ → Sessions → Sessions
evict zero cap d = d
evict (suc fuel) cap d =
    let rest = evict fuel cap (pop_oldest d) in if leb cap (length d) then rest else d

-- In seconds.
pub session_ttl : SessionConfig → ℕ
session_ttl s = max 1 s.admin_session_ttl_minutes * 60

unfoldable pub create_session : SessionConfig → String → ℕ → ℕ → Sessions → Sessions × ℕ
unfolding purge_expired session_ttl evict pop_oldest
create_session s sid purge_now now d =
    let live = purge_expired purge_now d in
    let cap = max 1 s.max_admin_sessions in
    (put (evict (length live) cap live) sid (now + session_ttl s * 1000000), session_ttl s)

abbrev pub is_given : Option String → Bool
is_given none = false
is_given (some sid) = if str_eq sid "" then false else true

abbrev pub id_of : Option String → String
id_of none = ""
id_of (some sid) = sid

unfoldable pub session_valid : ℕ → ℕ → Option String → Sessions → Bool × Sessions
unfolding purge_expired
session_valid purge_now now sid d =
    if is_given sid
    then (
      and_some (get (purge_expired purge_now d) (id_of sid)) (λ exp. ltb now exp),
      purge_expired purge_now d,
    )
    else (false, d)

unfoldable pub destroy_session : Option String → Sessions → Sessions
destroy_session sid d = if is_given sid then pop d (id_of sid) else d
