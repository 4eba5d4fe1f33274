-- ===== src/Api/Application/Readiness.antt =====
-- When the service reports that it is ready.
use Prim.Native.String.{count}
use security_review_ai.Prelude.{
  ◌≤◌, ◌≡◌, ◌↔◌, ◌⊎◌, refl, sym, String, Bool, true, false, ◌&&◌, not, Option, List, [], ◌∷◌, ◌++◌,
  arith, Bool-cases, inl, inr,
}
use security_review_ai.Security.OutboundUrl.{SplitUrl}
use security_review_ai.Security.Secrets.{
  Issue, issue_if, is_production, auth_required, env_or, is_default_jwt, jwt_issues, is_default_key,
  is_placeholder_secret, is_https_url, min_jwt_secret_length, secret_issues,
  validate_production_secrets,
}
use security_review_ai.Api.Application.{readiness, startup_validation_error}

nil_cases {ℓ} : {A : Type ℓ} → (l : List A) → (l ≡ []) ⊎ ((x : A) × (t : List A) × (l ≡ x ∷ t))
nil_cases [] = inl refl
nil_cases (x ∷ t) = inr (x, t, refl)

issues_nil :
    (l : List Issue) (a b c : Bool) (i j k : Issue)
    → l ++ issue_if a i ++ issue_if b j ++ issue_if c k ≡ []
    → (l ≡ []) × (a ≡ false) × (b ≡ false) × (c ≡ false)
issues_nil [] false false false i j k h = (refl, refl, refl, refl)
issues_nil [] true b c i j k h = absurd (cc)
issues_nil [] false true c i j k h = absurd (cc)
issues_nil [] false false true i j k h = absurd (cc)
issues_nil (x ∷ l) a b c i j k h = absurd (cc)

true_of_not : (b : Bool) → not b ≡ false → b ≡ true
true_of_not true h = refl
true_of_not false h = sym h

key_required : (a b : Bool) → a && b ≡ false → a ≡ true → b ≡ false
key_required true b h e = h
key_required false b h e = absurd (cc)

jwt_issues_nil :
    (s : String)
    → jwt_issues s ≡ []
    → (is_default_jwt s ≡ false) × (min_jwt_secret_length ≤ count s)
jwt_issues_nil s h = elim (Bool-cases (is_default_jwt s)) [
  | inl d ↦ absurd (ground arith)
  | inr d ↦ (d, ground arith)
]

module _ (getenv : String → Option String) (urlsplit : String → Option SplitUrl) where
  abbrev jwt_secret : String
  jwt_secret = env_or "" (getenv "SECURITY_REVIEW_JWT_SECRET")

  abbrev api_key : String
  api_key = env_or "" (getenv "SECURITY_REVIEW_API_KEY")

  -- the signing secret is long and not the default, a required key is not the default, the webhook
  -- secret is no placeholder, and the public address is an https URL without credentials
  abbrev pub IsSecure : Type 0
  IsSecure =
      (is_default_jwt jwt_secret ≡ false)
      × (min_jwt_secret_length ≤ count jwt_secret)
      × (auth_required getenv ≡ true → is_default_key api_key ≡ false)
      × (is_placeholder_secret (getenv "SECURITY_REVIEW_WEBHOOK_SECRET") ≡ false)
      × (is_https_url (urlsplit (env_or "" (getenv "SECURITY_REVIEW_PUBLIC_BASE_URL"))) ≡ true)

  no_issue-IsSecure : secret_issues getenv urlsplit ≡ [] → IsSecure
  unfolding secret_issues
  no_issue-IsSecure h =
      let (no_jwt, no_key, no_hook, no_url) =
        issues_nil (jwt_issues jwt_secret) (auth_required getenv && is_default_key api_key)
          (is_placeholder_secret (getenv "SECURITY_REVIEW_WEBHOOK_SECRET"))
          (not (is_https_url (urlsplit (env_or "" (getenv "SECURITY_REVIEW_PUBLIC_BASE_URL"))))) _ _
          _ h in
      let (secret, long) = jwt_issues_nil jwt_secret no_jwt in
      (secret, long, (λ e. key_required _ _ no_key e), no_hook, true_of_not _ no_url)

  IsSecure-no_issue : IsSecure → secret_issues getenv urlsplit ≡ []
  unfolding secret_issues
  IsSecure-no_issue h = ground arith

  in_production :
      is_production getenv ≡ true
      → ((readiness getenv urlsplit).0 ≡ 200) ↔ (secret_issues getenv urlsplit ≡ [])
  unfolding readiness startup_validation_error validate_production_secrets
  in_production p = rw p (elim (nil_cases (secret_issues getenv urlsplit)) [
    | inl e ↦ rw e (λ h. refl, λ h. refl)
    | inr (i, t, e) ↦ rw e (λ h. absurd (omega arith), λ h. absurd (cc))
  ])

  outside_production : is_production getenv ≡ false → (readiness getenv urlsplit).0 ≡ 200
  unfolding readiness startup_validation_error validate_production_secrets
  outside_production p = rw p refl

  -- The handler of the readiness endpoint answers 200 exactly when, in the production
  -- environment, the configuration is secure: the signing secret is set, not the default and at
  -- least 32 characters long, a required API key is set and not the default, the webhook secret
  -- is no placeholder, and the public address is an https URL with a network location that is not
  -- empty and without credentials.
  pub readiness_iff :
      ((readiness getenv urlsplit).0 ≡ 200) ↔ (is_production getenv ≡ true → IsSecure)
  readiness_iff = (
    λ h p. no_issue-IsSecure ((in_production p).0 h),
    λ h. elim (Bool-cases (is_production getenv)) [
      | inl p ↦ (in_production p).1 (IsSecure-no_issue (h p))
      | inr p ↦ outside_production p
    ],
  )
