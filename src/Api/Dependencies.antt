-- ===== src/Api/Dependencies.antt =====
-- dependencies.py: who makes a request, and whether the role allows it; and the API-key middleware
-- of main.py.
pub mod Access
use security_review_ai.Prelude.{
  ℕ, String, str_eq, Bool, true, false, ◌||◌, not, Option, none, some, List, any, if◌then◌else◌,
  is_nonempty, is_truthy, lower, strip, split_once, starts_with,
}
use security_review_ai.Exec.{Result, ok, err, invalid_token}
use security_review_ai.System.{System}
use security_review_ai.Domain.Auth.{User, UserRole, role_eq}
use security_review_ai.Auth.{TokenCodec, get_current_user}
use security_review_ai.Security.Secrets.{auth_required, env_or}

abbrev pub after_scheme : Option (String × String) → Option String
after_scheme none = none
after_scheme (some (scheme, rest)) =
    if str_eq (lower scheme) "bearer" then some (strip rest) else none

-- `_extract_bearer_token`
unfoldable pub extract_bearer_token : Option String → Option String
extract_bearer_token none = none
extract_bearer_token (some header) =
    if is_nonempty header then after_scheme (split_once b' ' header) else none

-- the answer of a dependency: a value, or an HTTP error with its status code
pub data Dependency (A : Type 0) : Type 0 where
  resolved : A → Dependency A
  http_error : ℕ → Dependency A

-- InvalidTokenError is a 401; any other exception is left to the server, which answers 500
abbrev pub as_dependency : Result User → Dependency User
as_dependency (ok u) = resolved u
as_dependency (err invalid_token) = http_error 401
as_dependency (err e) = http_error 500

-- the token's owner, in the state of the database
abbrev authenticate : TokenCodec → ℕ → Option String → System → Dependency User
authenticate codec now none s = http_error 401
authenticate codec now (some t) s =
    if is_nonempty t then as_dependency (get_current_user codec now t s).0 else http_error 401

-- `get_current_user(authorization)`, at a time
unfoldable pub current_user : TokenCodec → ℕ → Option String → System → Dependency User
current_user codec now header s = authenticate codec now (extract_bearer_token header) s

abbrev or_anonymous : Dependency User → Dependency (Option User)
or_anonymous (resolved u) = resolved (some u)
or_anonymous (http_error status) = http_error status

abbrev authenticate_optional : TokenCodec → ℕ → Option String → System → Dependency (Option User)
authenticate_optional codec now none s = resolved none
authenticate_optional codec now (some t) s =
    if is_nonempty t
    then or_anonymous (as_dependency (get_current_user codec now t s).0)
    else resolved none

-- `get_optional_current_user(authorization)`, at a time
unfoldable pub optional_current_user :
    TokenCodec → ℕ → Option String → System → Dependency (Option User)
optional_current_user codec now header s =
    authenticate_optional codec now (extract_bearer_token header) s

-- `get_current_organization_id`
unfoldable pub current_organization_id : TokenCodec → ℕ → Option String → System → Dependency ℕ
current_organization_id codec now header s = elim (current_user codec now header s) [
  | resolved u ↦ resolved u.organization_id
  | http_error c ↦ http_error c
]

-- `require_roles(*allowed_roles)` on the current user
unfoldable pub require_roles : List UserRole → User → Dependency User
require_roles allowed u = if any (λ r. role_eq u.role r) allowed then resolved u else http_error 403

-- the paths of `enforce_api_key` that need no key
abbrev pub is_open_path : String → Bool
is_open_path p =
    str_eq p "/"
    || str_eq p "/health"
    || str_eq p "/metrics"
    || str_eq p "/docs"
    || str_eq p "/openapi.json"
    || str_eq p "/redoc"
    || str_eq p "/billing/plans"
    || str_eq p "/billing/webhooks/stripe"
    || starts_with p "/auth"

-- provided_key == expected
abbrev is_key : Option String → String → Bool
is_key none expected = false
is_key (some k) expected = str_eq k expected

-- whether `enforce_api_key` passes the request on; otherwise it answers 401
unfoldable pub api_key_passes : (String → Option String) → String → Option String → Bool
api_key_passes getenv path provided =
    is_open_path path
    || not (auth_required getenv)
    || is_key provided (env_or "demo-key" (getenv "SECURITY_REVIEW_API_KEY"))
