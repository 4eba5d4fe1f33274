-- ===== src/Scanners/BlackBox/Run.antt =====
-- `execute` of black_box_agent.py, with the check of the ports.
use security_review_ai.Prelude.{
  ℕ, String, Bool, true, false, ◌||◌, Option, none, some, List, [], ◌∷◌, ◌++◌, any, map, before,
  starts_with, concat, decimal, is_nonempty, ◌==◌, if◌then◌else◌,
}
use security_review_ai.Exec.{Result, ok, err, unsafe_outbound_url}
use security_review_ai.Security.OutboundUrl.{Network, validate_public_http_url}
use security_review_ai.Domain.Assessment.{FindingSeverity}
use security_review_ai.Scanners.Report.{Draft, draft, or_else}
use security_review_ai.Scanners.Web.{Sent, connect, ParsedUrl, Web}
use security_review_ai.Scanners.BlackBox.Probes.{
  Probe, both, quiet, nothing, check_web_server, deep_web_assessment,
}

abbrev pub common_ports : List (ℕ × String)
common_ports =
    (80, "HTTP")
    ∷ (443, "HTTPS")
    ∷ (22, "SSH")
    ∷ (3306, "MySQL")
    ∷ (5432, "PostgreSQL")
    ∷ (6379, "Redis")
    ∷ (27017, "MongoDB")
    ∷ (9200, "Elasticsearch")
    ∷ []

abbrev port_finding : String → ℕ × String → Draft
port_finding host (port, service) =
    draft (concat "Exposed service detected: " (concat service (concat " on port " (decimal port))))
      FindingSeverity.medium
      (concat "Detected accessible " (concat service " service on the external surface."))
      (concat host (concat ":" (decimal port)))
      (concat "Verify if "
        (concat service " should be exposed externally. Use firewall rules to restrict access."))

-- target.startswith(("http://", "https://"))
abbrev pub is_url : String → Bool
is_url target = starts_with target "http://" || starts_with target "https://"

abbrev pub checked_address : String → String
checked_address target = if is_url target then target else concat "https://" target

abbrev pub is_web_port : ℕ × String → Bool
is_web_port (port, service) = port == 80 || port == 443

module _ (web : Web) where
  abbrev netloc_of : Option ParsedUrl → String
  netloc_of none = ""
  netloc_of (some p) = p.netloc

  abbrev pub host_of : String → String
  host_of target =
      if is_url target then before b':' (netloc_of (web.urlparse target)) else before b':' target

  -- the ports that are open
  unfoldable pub scan_ports : String → List (ℕ × String) → List Sent → List (ℕ × String) × List Sent
  scan_ports host [] log = ([], log)
  scan_ports host ((port, service) ∷ rest) log =
      let (found, log') = scan_ports host rest (log ++ connect host port ∷ []) in
      (if web.is_port_open log host port then (port, service) ∷ found else found, log')

  abbrev skipped : String → Draft
  skipped target =
      draft "Deep active testing skipped (authorization required)" FindingSeverity.low
        "Crawling, injection probing, CSRF/header analysis were skipped because the scan job did not set target_authorization_confirmed=true."
        target
        "Re-run the scan job with target_authorization_confirmed=true once you have explicit authorization to actively test this target."

  abbrev pub deep_testing : Bool → Bool → String → Probe
  deep_testing false authorized target = nothing
  deep_testing true true target = deep_web_assessment web target
  deep_testing true false target = quiet (skipped target ∷ [])

  abbrev pub web_testing : List (ℕ × String) → String → Probe
  web_testing opened target = elim (any is_web_port opened) [
    | true ↦ check_web_server web target
    | false ↦ nothing
  ]

  abbrev pub after_ports : Bool → String → List (ℕ × String) × List Sent → List Draft × List Sent
  after_ports authorized target (opened, log) =
      both (quiet (map (port_finding (host_of target)) opened))
        (both (web_testing opened target) (deep_testing (is_url target) authorized target)) log

  abbrev completed : String → List Draft × List Sent → List Draft × List Sent
  completed target (findings, log) = (
    or_else
        (draft "Black-box assessment completed" FindingSeverity.low
          "No obvious external vulnerabilities detected in preliminary assessment." target
          "Continue monitoring external surface for emerging threats.")
        findings,
    log,
  )

  abbrev well : List Draft × List Sent → Result (List Draft) × List Sent
  well (findings, log) = (ok findings, log)

  abbrev refusal_of : String → Probe
  refusal_of target = quiet (
      draft "External target rejected by network safety policy" FindingSeverity.low
        (web.refusal (checked_address target)) target
        "Use a publicly routable target that is explicitly authorized for testing."
      ∷ [])

  -- an exception of another class than UnsafeOutboundUrlError ends the agent
  abbrev pub if_public : Bool → String → Result String → List Sent → Result (List Draft) × List Sent
  if_public authorized target (err unsafe_outbound_url) log = well (refusal_of target log)
  if_public authorized target (err e) log = (err e, log)
  if_public authorized target (ok url) log = well (
      completed target
        (after_ports authorized target (scan_ports (host_of target) common_ports log)))

  module _ (net : Network) where
    unfoldable pub execute_on : Bool → String → List Sent → Result (List Draft) × List Sent
    execute_on authorized target log =
        if_public authorized target (validate_public_http_url net (checked_address target)) log

    -- `BlackBoxAgent.execute`
    unfoldable pub execute : Bool → Option String → List Sent → Result (List Draft) × List Sent
    execute authorized none log = well (nothing log)
    execute authorized (some target) log = elim (is_nonempty target) [
      | true ↦ execute_on authorized target log
      | false ↦ well (nothing log)
    ]
