-- ===== src/Scanners/BlueTeam/Logs.antt =====
-- `_analyze_logs` of blue_team_agent.py.
use security_review_ai.Prelude.{
  ℕ, suc, String, str_eq, Bool, true, false, ◌&&◌, Option, none, some, List, [], ◌∷◌, ◌++◌, any,
  map, length, leb, take, find_first, flat_map, lower, strip, contains, join, concat, decimal,
  prefix,
}
use security_review_ai.Prelude.Dict.{update_key}
use security_review_ai.Domain.Assessment.{FindingSeverity}
use security_review_ai.Scanners.BlueTeam.Discovery.{discover_log_files}
use security_review_ai.Scanners.Report.{Draft, draft, Files, severity_value, report_if, matches}

abbrev ip_pattern : String
ip_pattern = "\\b(?:\\d{1,3}\\.){3}\\d{1,3}\\b"

abbrev failed_login_pattern : String
failed_login_pattern =
    "failed password|authentication failure|invalid user|login failed|failed login|401 unauthorized"

abbrev pub brute_force_threshold : ℕ
brute_force_threshold = 5

abbrev injection_signatures : List String
injection_signatures =
    "union select" ∷ "' or '1'='1" ∷ " or 1=1" ∷ "<script>" ∷ "../../../" ∷ "etc/passwd"
    ∷ "select * from" ∷ "drop table" ∷ []

abbrev privileged_command_signatures : List String
privileged_command_signatures =
    "sudo su" ∷ "useradd" ∷ "usermod -ag sudo" ∷ "chmod 777" ∷ "/etc/shadow" ∷ "nc -e" ∷ "| sh"
    ∷ "| bash" ∷ []

abbrev scanner_path_signatures : List String
scanner_path_signatures =
    "/wp-login.php" ∷ "/phpmyadmin" ∷ "/.env" ∷ "/.git/config" ∷ "/xmlrpc.php" ∷ "/actuator/env"
    ∷ "/.aws/credentials" ∷ []

abbrev pub scanner_path_threshold : ℕ
scanner_path_threshold = 3

abbrev pub max_lines_per_file : ℕ
max_lines_per_file = 5000

-- the keys of brute_force_counter
abbrev pub same_source : String × String → String × String → Bool
same_source (f, i) (g, j) = str_eq f g && str_eq i j

-- counter[key] += 1
abbrev pub one_more : Option ℕ → ℕ
one_more none = 1
one_more (some n) = suc n

-- the two counters and event_findings
pub record Tally : Type 0 where
  pub brute_force : List ((String × String) × ℕ)
  pub scanner : List (String × ℕ)
  pub events : List Draft

abbrev pub empty_tally : Tally
empty_tally = record { brute_force = []; scanner = []; events = [] }

abbrev or_text : String → Option String → String
or_text d none = d
or_text d (some s) = s

abbrev event_of : (String → Draft) → Option String → List Draft
event_of f none = []
event_of f (some signature) = f signature ∷ []

abbrev pub count_failed :
    String → Option String → List ((String × String) × ℕ) → List ((String × String) × ℕ)
count_failed file none t = t
count_failed file (some ip) t = update_key same_source one_more (file, ip) t

abbrev count_probe : Option String → List (String × ℕ) → List (String × ℕ)
count_probe none t = t
count_probe (some source) t = update_key str_eq one_more source t

abbrev evidence_of : String → String → String
evidence_of file line = concat file (concat ": " (prefix 200 (strip line)))

abbrev line_events : String → String → List Draft
line_events file line =
    event_of
      (λ signature.
        draft "Web attack payload detected in logs" FindingSeverity.critical
          (concat "Log entry contains a known attack signature ('"
            (concat signature "'), indicating an active SQL injection or XSS attempt."))
          (evidence_of file line)
          "Add a SIEM correlation rule alerting on this payload signature; verify the request was blocked by the WAF/input validation.")
      (find_first (contains (lower line)) injection_signatures)
    ++ event_of
        (λ signature.
          draft "Suspicious privileged command in logs" FindingSeverity.high
            (concat "Log entry references a sensitive/privileged command ('" (
              concat signature
                "'), consistent with post-exploitation or privilege escalation activity."))
            (evidence_of file line)
            "Investigate the originating session/user immediately; alert on this command pattern in EDR going forward.")
        (find_first (contains (lower line)) privileged_command_signatures)

abbrev pub brute_force_event : (String × String) × ℕ → List Draft
brute_force_event ((file, ip), n) = report_if (leb brute_force_threshold n) (
    draft "Brute-force login attempts detected" FindingSeverity.high
      (concat "Source " (
        concat ip (
          concat " produced " (
            concat (decimal n) (
              concat " failed authentication log entries in "
                (concat file ", consistent with a brute-force/credential-stuffing attack."))))))
      (concat ip (concat " -> " (concat (decimal n) (concat " failed logins in " file))))
      "Recommended detection rule: alert when a single source IP exceeds 5 failed authentications within 5 minutes; enforce account lockout/rate limiting and require MFA.")

abbrev scanner_event : String × ℕ → List Draft
scanner_event (ip, n) = report_if (leb scanner_path_threshold n) (
    draft "Automated vulnerability scanning detected" FindingSeverity.medium
      (concat ip (
        concat " probed " (
          concat (decimal n)
            " well-known sensitive paths (e.g. /wp-login.php, /.env, /.git/config), consistent with automated reconnaissance tooling.")))
      ip
      "Recommended detection rule: alert on repeated 404s against known sensitive paths from a single source; consider a WAF rule or IP block.")

-- str(dict(severity_counts))
abbrev count_severities : List Draft → List (String × ℕ) → List (String × ℕ)
count_severities [] t = t
count_severities (d ∷ rest) t =
    count_severities rest (update_key str_eq one_more (severity_value d.severity) t)

abbrev severity_text : List Draft → String
severity_text events = concat "{" (
    concat
      (join ", " (
        map (λ (s, n). concat "'" (concat s (concat "': " (decimal n))))
          (count_severities events [])))
      "}")

abbrev pub summary : List String → List Draft → Draft
summary log_files events =
    draft "Blue Team log analysis: incident summary" FindingSeverity.high
      (concat "Ingested " (
        concat (decimal (length log_files)) (
          concat " log file(s) and identified " (
            concat (decimal (length events))
              (concat " suspicious event(s): " (concat (severity_text events) "."))))))
      (join ", " (take 5 log_files))
      "Review each finding below, escalate CRITICAL/HIGH events to incident response, and deploy the recommended detection rules in your SIEM/EDR."

abbrev pub nothing_found : List String → Draft
nothing_found log_files =
    draft "No suspicious activity detected in ingested logs" FindingSeverity.low
      (concat "Ingested "
        (concat (decimal (length log_files)) " log file(s); no known attack signatures matched."))
      (join ", " (take 5 log_files))
      "Baseline detection rules to consider: alert on >= 5 failed logins per source IP in 5 minutes, repeated 404s against sensitive paths, and known injection payload signatures."

abbrev pub report_of_logs : List String → List Draft → List Draft
report_of_logs log_files [] = nothing_found log_files ∷ []
report_of_logs log_files (d ∷ t) = summary log_files (d ∷ t) ∷ d ∷ t

module _ (fs : Files) where
  abbrev ip_or : String → String → String
  ip_or d line = or_text d (fs.search ip_pattern false line)

  -- the source that a line counts against in brute_force_counter
  abbrev pub failed_login : String → Option String
  failed_login line = elim (matches fs failed_login_pattern true line) [
    | true ↦ some (ip_or "unknown" line)
    | false ↦ none
  ]

  -- what a line counts against in scanner_counter
  abbrev probed_by : String → String → Option String
  probed_by file line = elim (any (contains (lower line)) scanner_path_signatures) [
    | true ↦ some (ip_or file line)
    | false ↦ none
  ]

  abbrev pub scan_line : String → String → Tally → Tally
  scan_line file line t = record {
    brute_force = count_failed file (failed_login line) t.brute_force;
    scanner = count_probe (probed_by file line) t.scanner;
    events = t.events ++ line_events file line;
  }

  unfoldable pub scan_lines : String → List String → Tally → Tally
  scan_lines file [] t = t
  scan_lines file (line ∷ rest) t = scan_lines file rest (scan_line file line t)

  -- a file that cannot be read is passed over
  abbrev pub lines_of : String → List String
  lines_of file = elim (fs.lines file) [ none ↦ [] | some ls ↦ take max_lines_per_file ls ]

  unfoldable pub scan_files : List String → Tally → Tally
  scan_files [] t = t
  scan_files (file ∷ rest) t = scan_files rest (scan_lines file (lines_of file) t)

  -- event_findings after both counters were read
  unfoldable pub events_of : List String → List Draft
  events_of log_files =
      let t = scan_files log_files empty_tally in
      t.events ++ flat_map brute_force_event t.brute_force ++ flat_map scanner_event t.scanner

  abbrev analyze : List String → List Draft
  analyze [] = []
  analyze (f ∷ t) = report_of_logs (f ∷ t) (events_of (f ∷ t))

  unfoldable pub analyze_logs : String → List Draft
  analyze_logs target = analyze (discover_log_files fs target)
