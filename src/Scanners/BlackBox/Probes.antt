-- ===== src/Scanners/BlackBox/Probes.antt =====
-- The checks of the pages of black_box_agent.py.
use security_review_ai.Prelude.{
  String, str_eq, true, false, ◌&&◌, not, Option, none, some, List, [], ◌∷◌, ◌++◌, any, map,
  keep_if, lower, contains, join, concat, prefix, is_nonempty,
}
use security_review_ai.Domain.Assessment.{FindingSeverity}
use security_review_ai.Scanners.Report.{Draft, draft, report_if}
use security_review_ai.Scanners.Web.{Sent, Reply, ParsedUrl, Web, request}
use security_review_ai.Scanners.BlackBox.Crawl.{Pages, crawl}

-- what a check finds, and what it sends
abbrev pub Probe : Type 0
Probe = List Sent → List Draft × List Sent

-- findings.extend(first), then findings.extend(second)
abbrev pub both : Probe → Probe → Probe
both first second log = let (a, log₁) = first log in let (b, log₂) = second log₁ in (a ++ b, log₂)

abbrev pub quiet : List Draft → Probe
quiet ds log = (ds, log)

abbrev pub nothing : Probe
nothing log = ([], log)

abbrev form_pattern : String
form_pattern = "<form\\b[^>]*>(.*?)</form>"

abbrev csrf_token_hint : String
csrf_token_hint = "csrf|_token|authenticity_token"

abbrev sql_error_signatures : List String
sql_error_signatures =
    "sql syntax" ∷ "mysql_fetch" ∷ "you have an error in your sql" ∷ "ora-01756"
    ∷ "sqlite3.operationalerror" ∷ "unclosed quotation mark" ∷ "pg_query"
    ∷ "syntax error at or near" ∷ "warning: mysql" ∷ []

abbrev security_headers : List (String × String)
security_headers =
    ("content-security-policy", "Content-Security-Policy")
    ∷ ("x-frame-options", "X-Frame-Options")
    ∷ ("strict-transport-security", "Strict-Transport-Security")
    ∷ ("x-content-type-options", "X-Content-Type-Options")
    ∷ []

abbrev missing_headers : Reply → List String
missing_headers r =
    map (λ (key, name). name)
      (keep_if (λ (key, name). not (any (λ (k, v). str_eq (lower k) key) r.headers))
        security_headers)

abbrev header_finding : String → List String → List Draft
header_finding url [] = []
header_finding url (m ∷ t) =
    draft "Missing recommended security headers" FindingSeverity.medium
      (concat "The following security headers are missing: " (concat (join ", " (m ∷ t)) "."))
      (concat "curl -I " url)
      "Configure the web server/application to send these headers on all responses."
    ∷ []

unfoldable pub check_security_headers : Reply → String → List Draft
check_security_headers r url = header_finding url (missing_headers r)

module _ (web : Web) where
  abbrev query_of : Option ParsedUrl → String
  query_of none = ""
  query_of (some p) = p.query

  -- `_replace_query_values`
  unfoldable pub replace_query_values : String → String → String
  replace_query_values url replacement = web.with_query url (
      join "&" (
        map (λ key. concat key (concat "=" replacement))
          (web.query_keys (query_of (web.urlparse url)))))

  -- one finding at the first form without a token
  unfoldable pub check_csrf_forms : String → String → List Draft
  check_csrf_forms html url =
      report_if
        (any (λ form. contains (lower form) "post" && not (web.has_match csrf_token_hint true form))
          (web.find_whole form_pattern true html))
        (draft "Form without visible CSRF protection" FindingSeverity.medium
          "A state-changing form was found with no recognizable CSRF token field." url
          "Add anti-CSRF tokens (e.g. synchronizer token pattern) to all state-changing forms.")

  abbrev if_answered : (Reply → List Draft) → Option Reply → List Draft
  if_answered f none = []
  if_answered f (some r) = f r

  -- client.get, with what is made of the response
  abbrev pub fetch : String → (Reply → List Draft) → Probe
  fetch url f log = (if_answered f (web.answer log (request url)), log ++ request url ∷ [])

  abbrev xss_marker : List Sent → String
  xss_marker log = concat "sra" (concat (prefix 8 (web.new_hex log)) "<b>")

  unfoldable pub check_reflected_xss : String → Probe
  check_reflected_xss url log =
      let marker = xss_marker log in
      let probe_url = replace_query_values url marker in
      fetch probe_url
        (λ r. report_if (contains r.text marker) (
          draft "Potential reflected Cross-Site Scripting (XSS)" FindingSeverity.high
            "A query parameter value was reflected back in the response body without apparent encoding."
            (concat "curl '" (concat probe_url "'"))
            "Contextually encode/escape all user-controlled output before rendering it in HTML."))
        log

  unfoldable pub check_sql_error_signatures : String → Probe
  check_sql_error_signatures url =
      let probe_url = replace_query_values url "'" in
      fetch probe_url (λ r. report_if (any (contains (lower r.text)) sql_error_signatures) (
        draft "Potential SQL Injection (error-based)" FindingSeverity.critical
          "Injecting a single quote into a query parameter surfaced a database error message."
          (concat "curl '" (concat probe_url "'"))
          "Use parameterized queries/prepared statements and disable verbose DB error output."))

  unfoldable pub check_web_server : String → Probe
  check_web_server target = fetch target (λ r.
      report_if (any (contains (lower r.text)) ("apache" ∷ "nginx" ∷ "iis" ∷ [])) (
        draft "Default/placeholder web content detected" FindingSeverity.medium
          "Web server appears to be running default configuration." target
          "Deploy actual application and hide server version information."))

  abbrev probe_query : String → Probe
  probe_query url = elim (is_nonempty (query_of (web.urlparse url))) [
    | true ↦ both (check_reflected_xss url) (check_sql_error_signatures url)
    | false ↦ nothing
  ]

  abbrev check_pages : Pages → Probe
  check_pages [] = nothing
  check_pages ((url, r) ∷ rest) =
      both (both (quiet (check_csrf_forms r.text url)) (probe_query url)) (check_pages rest)

  abbrev first_page : Pages → List Draft
  first_page [] = []
  first_page ((url, r) ∷ rest) = check_security_headers r url

  abbrev crawled : Option Pages × List Sent → List Draft × List Sent
  crawled (none, log) = ([], log)
  crawled (some pages, log) = both (quiet (first_page pages)) (check_pages pages) log

  -- an exception of the crawl leaves no findings
  unfoldable pub deep_web_assessment : String → Probe
  deep_web_assessment target log = crawled (crawl web target log)
