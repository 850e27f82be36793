-- ===== src/Security/Tests.antt =====
-- app/security.py at concrete inputs.
use vi_xauusd.Prelude.{
  length, ◌≤◌, String, ◌≡◌, refl, ◌≢◌, false, none, some, [], ◌∷◌, arith, str_eq,
}
use vi_xauusd.Prelude.Dict.{get, put, keep}
use vi_xauusd.Security.Sessions.{SessionConfig, Sessions, session_valid}
use vi_xauusd.Security.Sessions.Capacity.{}
use vi_xauusd.Security.Sessions.Validity.{}
use vi_xauusd.Security.RateLimit.{max_rate_keys, rate_limit, recent, rate_limit_window}
use vi_xauusd.Security.RateLimit.Cooldown.{rate_limit-IsBounded}
use vi_xauusd.Security.RateLimit.Window.{accepted_times, last_time, accepted_times-IsBounded}
use vi_xauusd.Security.Access.{
  production, other_method, AuthConfig, TextOps, Request, forbidden, require_admin,
}

abbrev two_sessions : SessionConfig
two_sessions = record { admin_session_ttl_minutes = 30; max_admin_sessions = 2 }

abbrev stored : Sessions
stored = ("a", 5000) ∷ ("b", 7000) ∷ []

c-ne-empty : ◌≢◌ {A = String} "c" ""
c-ne-empty e = cc

a-ne-empty : ◌≢◌ {A = String} "a" ""
a-ne-empty e = cc

rate_limit-IsBounded_example :
    length (rate_limit "run" 30000 1000 (("x", 1) ∷ [])).1 ≤ max_rate_keys
rate_limit-IsBounded_example = rate_limit-IsBounded "run" 30000 1000 (("x", 1) ∷ []) (omega arith)

accepted_times-IsBounded_example :
    length (
      recent 60
        (last_time 0 (1 ∷ 2 ∷ 3 ∷ 70 ∷ []))
        (accepted_times "login" 2 60 [] [] (1 ∷ 2 ∷ 3 ∷ 70 ∷ [])))
    ≤ 2
unfolding get
accepted_times-IsBounded_example =
    accepted_times-IsBounded "login" 2 60 0 [] (1 ∷ 2 ∷ 3 ∷ 70 ∷ []) (omega arith) refl
      (omega arith)

-- The third attempt is refused, the fourth comes after the window.
accepted_times_run : accepted_times "login" 2 60 [] [] (1 ∷ 2 ∷ 3 ∷ 70 ∷ []) ≡ 1 ∷ 2 ∷ 70 ∷ []
unfolding accepted_times rate_limit_window get put
accepted_times_run = refl

-- Text operations for the tests: comparison is equality, and no text is changed.
abbrev plain : TextOps
plain = record {
  compare_digest = str_eq;
  netloc = λ s. some s;
  lower = λ s. s;
  strip = λ s. s;
  host_part = λ s. s;
  size = λ s. 16;
}

abbrev locked : AuthConfig
locked = record {
  app_env = production;
  allow_unauthenticated_mutations = false;
  admin_token = "secret";
  min_admin_token_length = 16;
}

abbrev posted : Request
posted = record {
  method = other_method;
  admin_header = none;
  session_cookie = some "b";
  host = some "site";
  origin = some "evil";
  referer = none;
}

forged : (require_admin plain locked 100 100 stored posted).0 ≡ forbidden
unfolding require_admin get keep session_valid
forged = refl
