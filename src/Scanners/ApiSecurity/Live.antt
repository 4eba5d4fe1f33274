-- ===== src/Scanners/ApiSecurity/Live.antt =====
-- `_test_api_endpoint` and `execute` of api_security_agent.py.
use security_review_ai.Prelude.{
  String, str_eq, Bool, true, false, ◌&&◌, ◌||◌, Option, none, some, List, [], ◌∷◌, ◌++◌, concat,
  join, lower, contains, starts_with, is_truthy, is_nonempty, ◌==◌, if◌then◌else◌,
}
use security_review_ai.Domain.Assessment.{FindingSeverity}
use security_review_ai.Scanners.Report.{Draft, draft, Files, report_if, or_else}
use security_review_ai.Scanners.Web.{Sent, get, Reply, Web, request, header}
use security_review_ai.Scanners.ApiSecurity.Jwt.{
  Codec, check_jwt_handling, check_exposed_jwt_claims,
}
use security_review_ai.Scanners.ApiSecurity.Hidden.{discover_hidden_endpoints}
use security_review_ai.Scanners.ApiSecurity.RateLimiting.{check_rate_limiting}
use security_review_ai.Scanners.ApiSecurity.Specs.{analyze_openapi_spec}

abbrev missing_auth : String → Option Reply → List Draft
missing_auth url none = []
missing_auth url (some r) = report_if (r.status_code == 200 && contains (lower url) "api") (
    draft "Potentially missing authentication" FindingSeverity.high
      "API endpoint returned 200 without credentials." url
      "Verify endpoint requires proper authentication.")

abbrev name_if_missing : String → String → Reply → List String
name_if_missing key name r = if is_truthy (header key r.headers) then [] else name ∷ []

abbrev missing_headers : Reply → List String
missing_headers r =
    name_if_missing "x-content-type-options" "X-Content-Type-Options" r
    ++ name_if_missing "x-frame-options" "X-Frame-Options" r
    ++ name_if_missing "strict-transport-security" "Strict-Transport-Security" r

abbrev header_finding : String → List String → List Draft
header_finding url [] = []
header_finding url (m ∷ t) =
    draft "Missing security headers" FindingSeverity.medium
      (concat "API missing: " (join ", " (m ∷ t))) url
      (concat "Add security headers: " (join ", " (m ∷ t)))
    ∷ []

abbrev header_findings : String → Option Reply → List Draft
header_findings url none = []
header_findings url (some r) = header_finding url (missing_headers r)

abbrev is_any_origin : Option String → Bool
is_any_origin none = false
is_any_origin (some v) = str_eq v "*"

abbrev cors_findings : String → Option Reply → List Draft
cors_findings url none = []
cors_findings url (some r) =
    report_if (is_any_origin (header "access-control-allow-origin" r.headers)) (
      draft "Overly permissive CORS policy" FindingSeverity.high
        "CORS allows requests from any origin." url
        "Restrict Access-Control-Allow-Origin to trusted domains.")

-- client.get(url, headers={"Origin": "https://attacker.com"})
abbrev pub cors_request : String → Sent
cors_request url = get url (("Origin", "https://attacker.com") ∷ [])

abbrev last_of : Option Reply → Option Reply → Option Reply
last_of first none = first
last_of first (some r) = some r

abbrev testing_skipped : String → Draft
testing_skipped url =
    draft "Active API security testing skipped (authorization required)" FindingSeverity.low
      "OpenAPI spec discovery, undocumented-endpoint probing, rate-limit testing, and JWT validation testing were skipped because the scan job did not set target_authorization_confirmed=true."
      url
      "Re-run with target_authorization_confirmed=true once you have explicit authorization to actively probe this target."

abbrev pub is_url : String → Bool
is_url target = starts_with target "http://" || starts_with target "https://"

module _ (web : Web) (codec : Codec) (files : Files) (characters : String → List String) where
  abbrev failure : String → List Sent → Draft
  failure url log =
      draft "API security test error" FindingSeverity.low
        (concat "Could not test API endpoint: " (codec.error_text log)) url
        "Verify the API endpoint is accessible."

  abbrev after_discovery :
      String → List Draft → Option (List Draft) × List Sent → List Draft × List Sent
  after_discovery url ds (none, log) = (ds ++ failure url log ∷ [], log)
  after_discovery url ds (some found, log) =
      let (rate, log₁) = check_rate_limiting web url log in
      let (jwt, log₂) = check_jwt_handling web codec url log₁ in (ds ++ found ++ rate ++ jwt, log₂)

  abbrev pub active_tests : Bool → String → List Draft → List Sent → List Draft × List Sent
  active_tests true url ds log =
      after_discovery url ds (discover_hidden_endpoints web codec characters url log)
  active_tests false url ds log = (ds ++ testing_skipped url ∷ [], log)

  abbrev exposed : String → Option Reply → Option (List Draft)
  exposed url none = some []
  exposed url (some r) = check_exposed_jwt_claims web codec r url

  abbrev pub after_exposed :
      Bool → String → List Draft → Option (List Draft) → List Sent → List Draft × List Sent
  after_exposed authorized url ds none log = (ds ++ failure url log ∷ [], log)
  after_exposed authorized url ds (some claims) log =
      active_tests authorized url
        (ds ++ claims ++ cors_findings url (web.answer log (cors_request url)))
        (log ++ cors_request url ∷ [])

  unfoldable pub test_api_endpoint : Bool → String → List Sent → List Draft × List Sent
  test_api_endpoint authorized url log =
      let first = web.answer log (request url) in
      let second = web.answer (log ++ request url ∷ []) (request url) in
      after_exposed authorized url (missing_auth url first ++ header_findings url second)
        (exposed url (last_of first second)) ((log ++ request url ∷ []) ++ request url ∷ [])

  abbrev completed : String → List Draft × List Sent → List Draft × List Sent
  completed target (findings, log) = (
    or_else
        (draft "API security scan completed" FindingSeverity.low
          "No critical API security issues detected in preliminary scan." target
          "Continue monitoring API security best practices.")
        findings,
    log,
  )

  abbrev pub run_on : Bool → Bool → String → List Sent → List Draft × List Sent
  run_on true authorized target log = test_api_endpoint authorized target log
  run_on false authorized target log =
      analyze_openapi_spec web codec files characters authorized target log

  unfoldable pub execute_on : Bool → String → List Sent → List Draft × List Sent
  execute_on authorized target log = completed target (run_on (is_url target) authorized target log)

  -- `ApiSecurityAgent.execute`
  unfoldable pub execute : Bool → Option String → List Sent → List Draft × List Sent
  execute authorized none log = ([], log)
  execute authorized (some target) log = elim (is_nonempty target) [
    | true ↦ execute_on authorized target log
    | false ↦ ([], log)
  ]
