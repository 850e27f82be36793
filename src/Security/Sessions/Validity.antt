-- ===== src/Security/Sessions/Validity.antt =====
-- Which session ids the store accepts, and until when.
use vi_xauusd.Prelude.{
  ltb, if◌then◌else◌, and_some, ℕ, ◌+◌, ◌*◌, ◌≤◌, max, String, ◌≡◌, ◌≢◌, false, some, arith, str_eq,
  eq_iff, eq_refl,
}
use vi_xauusd.Prelude.Dict.{get, pop, get-put_lem, IsUnique, check, get-pop, get-keep, pop-IsUnique}
use vi_xauusd.Security.Sessions.{
  SessionConfig, Sessions, purge_expired, session_ttl, create_session, session_valid,
  destroy_session,
}
use vi_xauusd.Security.Sessions.Capacity.{create_session-IsBounded}

-- A session id is accepted exactly if it is not empty and the store holds it with an expiry after
-- the time of the check, whether or not expired sessions were purged before; here the clock does
-- not go back between the purge and the check.
pub session_valid_iff :
    (purge_now now : ℕ) (sid : String) (d : Sessions)
    → IsUnique d
    → purge_now ≤ now
    → (session_valid purge_now now (some sid) d).0
      ≡ (if str_eq sid "" then false else and_some (get d sid) (λ exp. ltb now exp))
unfolding session_valid purge_expired
session_valid_iff purge_now now sid d u h =
    ground (arith, get-keep (λ exp. ltb purge_now exp) d sid u)

get-create_session :
    (s : SessionConfig) (sid : String) (purge_now now : ℕ) (d : Sessions)
    → get (create_session s sid purge_now now d).0 sid
      ≡ some (now + max 1 s.admin_session_ttl_minutes * 60 * 1000000)
unfolding create_session session_ttl
get-create_session s sid purge_now now d = simp (get-put_lem, eq_refl)

-- A session just created is accepted from then on until its lifetime (at least one minute) has
-- passed and no longer, as long as the store is left alone.
pub session_valid-create_session :
    (s : SessionConfig) (sid : String) (purge_now now check_purge check : ℕ) (d : Sessions)
    → IsUnique d
    → sid ≢ ""
    → check_purge ≤ check
    → (session_valid check_purge check (some sid) (create_session s sid purge_now now d).0).0
      ≡ ltb check (now + max 1 s.admin_session_ttl_minutes * 60 * 1000000)
session_valid-create_session s sid purge_now now check_purge check d u ne h = ground (
  arith,
  eq_iff sid "",
  get-create_session s sid purge_now now d,
  session_valid_iff check_purge check sid (create_session s sid purge_now now d).0
      (create_session-IsBounded s sid purge_now now d u).0 h,
)

-- Logging out ends the session at once and touches no other session.
pub session_valid-destroy_session :
    (sid other : String) (purge_now now : ℕ) (d : Sessions)
    → IsUnique d
    → purge_now ≤ now
    → sid ≢ ""
    → (session_valid purge_now now (some other) (destroy_session (some sid) d)).0
      ≡ (if str_eq sid other then false else (session_valid purge_now now (some other) d).0)
unfolding destroy_session
session_valid-destroy_session sid other purge_now now d u h ne = ground (
  arith,
  eq_iff sid "",
  get-pop d sid other u,
  session_valid_iff purge_now now other d u h,
  session_valid_iff purge_now now other (pop d sid) (pop-IsUnique d sid u) h,
)
