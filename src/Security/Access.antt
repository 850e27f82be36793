-- ===== src/Security/Access.antt =====
-- app/security.py, the guard of mutating endpoints. A request is reduced to what the guard reads of
-- it. `compare` stands for `hmac.compare_digest`, `split` for the network location that `urlsplit`
-- finds (none where it raises ValueError), `lower`, `strip` and `host_part` for the string methods
-- (`host_part` takes what stands before the first comma).
pub mod Guard
use vi_xauusd.Prelude.{
  ltb, if◌then◌else◌, and_some, ℕ, max, String, Bool, true, false, not, ◌&&◌, ◌||◌, Option, none,
  some, str_eq,
}
use vi_xauusd.Security.Sessions.{Sessions, session_valid}

pub data AppEnv : Type 0 where
  development : AppEnv
  test_env : AppEnv
  production : AppEnv

pub data Method : Type 0 where
  get_method : Method
  head_method : Method
  options_method : Method
  other_method : Method

pub record AuthConfig : Type 0 where
  pub app_env : AppEnv
  pub allow_unauthenticated_mutations : Bool
  pub admin_token : String
  pub min_admin_token_length : ℕ

pub record TextOps : Type 0 where
  pub compare_digest : String → String → Bool
  pub netloc : String → Option String
  pub lower : String → String
  pub strip : String → String
  pub host_part : String → String
  pub size : String → ℕ

pub record Request : Type 0 where
  pub method : Method
  pub admin_header : Option String
  pub session_cookie : Option String
  pub host : Option String
  pub origin : Option String
  pub referer : Option String

pub data Outcome : Type 0 where
  allowed : Outcome
  unauthorized : Outcome
  forbidden : Outcome
  unavailable : Outcome

pub data Via : Type 0 where
  header : Via
  session : Via
  nothing : Via

abbrev pub is_empty : String → Bool
is_empty s = str_eq s ""

abbrev pub text_or_empty : Option String → String
text_or_empty none = ""
text_or_empty (some s) = s

unfoldable pub is_production : AuthConfig → Bool
is_production s = elim (s.app_env) [ production ↦ true | _ ↦ false ]

unfoldable pub unauthenticated_mutations_allowed : AuthConfig → Bool
unauthenticated_mutations_allowed s = elim (s.app_env) [ production ↦ false | _ ↦ true ]

-- Not GET, HEAD or OPTIONS.
abbrev pub is_unsafe : Method → Bool
is_unsafe other_method = true
is_unsafe _ = false

abbrev is_session : Via → Bool
is_session session = true
is_session _ = false

module _ (ops : TextOps) where
  open ops use {compare_digest, netloc, lower, strip, host_part, size}

  unfoldable pub token_configured : AuthConfig → String
  token_configured s = strip s.admin_token

  unfoldable pub production_auth_misconfigured : AuthConfig → Bool × String
  unfolding is_production token_configured
  production_auth_misconfigured s =
      if not (is_production s)
      then (false, "")
      else if s.allow_unauthenticated_mutations
      then (true, "allow_unauthenticated_mutations_set_in_production")
      else if is_empty (token_configured s)
      then (true, "admin_token_missing")
      else if ltb (size (token_configured s)) (max 1 s.min_admin_token_length)
      then (true, "admin_token_too_short")
      else (false, "")

  unfoldable pub token_matches : AuthConfig → Option String → Bool
  unfolding token_configured
  token_matches s provided =
      if is_empty (token_configured s) || is_empty (text_or_empty provided)
      then false
      else compare_digest (strip (text_or_empty provided)) (token_configured s)

  abbrev or_text : Option String → Option String → String
  or_text a b = if is_empty (text_or_empty a) then text_or_empty b else text_or_empty a

  unfoldable pub same_site : Request → Bool
  same_site r =
      let host = lower (strip (host_part (text_or_empty r.host))) in
      let src = or_text r.origin r.referer in
      if is_empty src || is_empty host
      then false
      else and_some (netloc src)
          (λ found. not (is_empty (lower found)) && str_eq (lower found) host)

  -- The session check purges what has expired; the store is returned with the answer.
  unfoldable pub is_authorized : AuthConfig → ℕ → ℕ → Sessions → Request → Bool × Via × Sessions
  unfolding token_matches
  is_authorized s purge_now now sessions r =
      let by_cookie = session_valid purge_now now r.session_cookie sessions in
      if token_matches s r.admin_header
      then (true, header, sessions)
      else if by_cookie.0
      then (true, session, by_cookie.1)
      else (false, nothing, by_cookie.1)

  unfoldable pub require_admin : AuthConfig → ℕ → ℕ → Sessions → Request → Outcome × Sessions
  unfolding is_authorized token_configured same_site unauthenticated_mutations_allowed
  require_admin s purge_now now sessions r =
      if is_empty (token_configured s)
      then (if unauthenticated_mutations_allowed s then allowed else unavailable, sessions)
      else let answer = is_authorized s purge_now now sessions r in
        if not answer.0
        then (unauthorized, answer.2)
        else if is_session answer.1 && is_unsafe r.method && not (same_site r)
        then (forbidden, answer.2)
        else (allowed, answer.2)
