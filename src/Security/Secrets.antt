-- ===== src/Security/Secrets.antt =====
-- secrets_validation.py: the checks of the configuration at startup. `getenv` is the environment.
use Prim.Native.String.{count}
use security_review_ai.Prelude.{
  ℕ, String, str_eq, Bool, true, false, ◌||◌, ◌&&◌, not, Option, none, some, List, [], ◌∷◌, ◌++◌,
  is_nonempty, is_truthy, strip, lower, ltb, if◌then◌else◌,
}
use security_review_ai.Exec.{Result, ok, err, insecure_configuration}
use security_review_ai.Security.OutboundUrl.{SplitUrl}

-- one constructor for each text that is appended to `issues`
pub data Issue : Type 0 where
  jwt_secret_default jwt_secret_short api_key_default webhook_placeholder bad_public_url : Issue

abbrev pub min_jwt_secret_length : ℕ
min_jwt_secret_length = 32

abbrev pub insecure_jwt_secret_default : String
insecure_jwt_secret_default = "dev-insecure-secret-change-me-in-production-32b"

abbrev pub insecure_api_key_default : String
insecure_api_key_default = "demo-key"

abbrev pub is_placeholder : String → Bool
is_placeholder s = str_eq s "change-me-in-production" || str_eq s "top-secret"

-- os.getenv(name, default)
abbrev pub env_or : String → Option String → String
env_or d none = d
env_or d (some v) = v

abbrev pub is_on : String → Bool
is_on v = str_eq v "1" || str_eq v "true" || str_eq v "yes" || str_eq v "on"

unfoldable pub is_production : (String → Option String) → Bool
is_production getenv =
    str_eq (lower (strip (env_or "development" (getenv "SECURITY_REVIEW_ENVIRONMENT"))))
      "production"

unfoldable pub auth_required : (String → Option String) → Bool
auth_required getenv =
    is_on (lower (strip (env_or "false" (getenv "SECURITY_REVIEW_AUTH_REQUIRED"))))

abbrev pub issue_if : Bool → Issue → List Issue
issue_if true i = i ∷ []
issue_if false i = []

abbrev pub is_default_jwt : String → Bool
is_default_jwt secret = not (is_nonempty secret) || str_eq secret insecure_jwt_secret_default

abbrev pub jwt_issues : String → List Issue
jwt_issues secret =
    if is_default_jwt secret
    then jwt_secret_default ∷ []
    else issue_if (ltb (count secret) min_jwt_secret_length) jwt_secret_short

abbrev pub is_default_key : String → Bool
is_default_key key = not (is_nonempty key) || str_eq key insecure_api_key_default

-- `webhook_secret and webhook_secret in INSECURE_WEBHOOK_SECRET_PLACEHOLDERS`
abbrev pub is_placeholder_secret : Option String → Bool
is_placeholder_secret none = false
is_placeholder_secret (some s) = is_nonempty s && is_placeholder s

abbrev pub is_https_url : Option SplitUrl → Bool
is_https_url none = false
is_https_url (some p) =
    str_eq p.scheme "https"
    && is_nonempty p.netloc
    && not (is_truthy p.username)
    && not (is_truthy p.password)

module _ (getenv : String → Option String) (urlsplit : String → Option SplitUrl) where
  unfoldable pub secret_issues : List Issue
  secret_issues =
      jwt_issues (env_or "" (getenv "SECURITY_REVIEW_JWT_SECRET"))
      ++ issue_if
          (auth_required getenv && is_default_key (env_or "" (getenv "SECURITY_REVIEW_API_KEY")))
          api_key_default
      ++ issue_if (is_placeholder_secret (getenv "SECURITY_REVIEW_WEBHOOK_SECRET"))
          webhook_placeholder
      ++ issue_if
          (not (is_https_url (urlsplit (env_or "" (getenv "SECURITY_REVIEW_PUBLIC_BASE_URL")))))
          bad_public_url

  abbrev raise_if_any : List Issue → Result (Unit {0})
  raise_if_any [] = ok tt
  raise_if_any (i ∷ t) = err insecure_configuration

  unfoldable pub validate_production_secrets : Result (Unit {0})
  validate_production_secrets = if is_production getenv then raise_if_any secret_issues else ok tt
