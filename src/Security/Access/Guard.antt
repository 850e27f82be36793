-- ===== src/Security/Access/Guard.antt =====
-- What the guard of the mutating endpoints lets through.
use vi_xauusd.Prelude.{
  ltb, if◌then◌else◌, and_some, ℕ, String, ◌≡◌, ◌≢◌, Bool, true, false, Option, none, some, arith,
  str_eq,
}
use vi_xauusd.Prelude.Dict.{get}
use vi_xauusd.Security.Sessions.{Sessions}
use vi_xauusd.Security.Access.{
  AuthConfig, TextOps, Request, unavailable, is_empty, is_production, token_configured,
  production_auth_misconfigured, require_admin,
}

-- A session cookie with a live session behind it.
abbrev pub holds_session : ℕ → Sessions → Option String → Bool
holds_session now sessions none = false
holds_session now sessions (some sid) =
    if str_eq sid "" then false else and_some (get sessions sid) (λ exp. ltb now exp)

module _ (ops : TextOps) where
  -- In a production that its own readiness check does not report, a token is configured, so that
  -- the endpoints are guarded by it and the guard never gives up with "unavailable".
  pub require_admin_configured :
      (s : AuthConfig) (purge_now now : ℕ) (sessions : Sessions) (r : Request)
      → is_production s ≡ true
      → (production_auth_misconfigured ops s).0 ≡ false
      → (is_empty (token_configured ops s) ≡ false)
        × ((require_admin ops s purge_now now sessions r).0 ≢ unavailable)
  unfolding require_admin production_auth_misconfigured
  require_admin_configured s purge_now now sessions r prod good = ground arith
