-- ===== src/Security/PublicUrl.antt =====
-- public_url.py: the canonical URL of the application, used in links that leave it.
use security_review_ai.Prelude.{
  ◌==◌, String, str_eq, Bool, ◌&&◌, not, Option, none, some, is_nonempty, is_truthy, lower,
  rstrip_if, if◌then◌else◌,
}
use security_review_ai.Exec.{Result, ok, err, public_base_url}
use security_review_ai.Security.OutboundUrl.{SplitUrl, is_http}
use security_review_ai.Security.Secrets.{env_or}

module _ (getenv : String → Option String) (urlsplit : String → Option SplitUrl) where
  -- here the environment's name is not stripped
  unfoldable pub in_production : Bool
  in_production =
      str_eq (lower (env_or "development" (getenv "SECURITY_REVIEW_ENVIRONMENT"))) "production"

  abbrev pub is_acceptable : SplitUrl → Bool
  is_acceptable p =
      is_http p.scheme
      && is_nonempty p.netloc
      && not (is_truthy p.username)
      && not (is_truthy p.password)
      && not (in_production && not (str_eq p.scheme "https"))

  abbrev check_split : String → Option SplitUrl → Result String
  check_split value none = err public_base_url
  check_split value (some p) = if is_acceptable p then ok value else err public_base_url

  -- configured.rstrip("/")
  abbrev without_slashes : String → String
  without_slashes s = rstrip_if (λ c. c == b'/') s

  abbrev from_configured : Option String → Result String
  from_configured none = if in_production then err public_base_url else ok "http://localhost:8000"
  from_configured (some v) =
      if is_nonempty v
      then check_split (without_slashes v) (urlsplit (without_slashes v))
      else if in_production
      then err public_base_url
      else ok "http://localhost:8000"

  unfoldable pub get_public_base_url : Result String
  get_public_base_url = from_configured (getenv "SECURITY_REVIEW_PUBLIC_BASE_URL")
