-- ===== src/Scanners/RedTeam.antt =====
-- red_team_agent.py
pub mod Chains
use security_review_ai.Prelude.{
  String, str_eq, Bool, true, false, ◌||◌, Option, none, some, List, [], ◌∷◌, ◌++◌, any, map,
  length, leb, flat_map, lower, contains, before, join, concat, is_nonempty, if◌then◌else◌,
}
use security_review_ai.Prelude.Dict.{update_key}
use security_review_ai.Domain.Assessment.{FindingSeverity}
use security_review_ai.Scanners.Report.{
  Draft, draft, Files, report_if, or_else, for_target, matches, each_file,
}

-- finding.evidence.split(":")[0]
abbrev pub file_key : Draft → String
file_key d = before b':' d.evidence

-- titles_by_file, each set as the list of what was added to it
abbrev pub TitlesByFile : Type 0
TitlesByFile = List (String × List String)

abbrev pub with_title : String → Option (List String) → List String
with_title title none = title ∷ []
with_title title (some titles) = titles ++ title ∷ []

abbrev pub add_title : Draft → TitlesByFile → TitlesByFile
add_title d t =
    if is_nonempty (file_key d)
    then update_key str_eq (with_title (lower d.title)) (file_key d) t
    else t

unfoldable pub titles_by_file : List Draft → TitlesByFile → TitlesByFile
titles_by_file [] t = t
titles_by_file (d ∷ rest) t = titles_by_file rest (add_title d t)

abbrev pub step_if : Bool → String → List String
step_if true step = step ∷ []
step_if false step = []

abbrev pub any_title : String → List String → Bool
any_title word titles = any (λ title. contains title word) titles

-- steps
unfoldable pub steps_of : List String → List String
steps_of titles =
    step_if (any_title "credential" titles) "harvest hardcoded credentials"
    ++ step_if (any_title "authentication check" titles) "bypass weak authentication logic"
    ++ step_if (any_title "injection" titles) "exploit an injection vulnerability"
    ++ step_if
        (any
          (λ title.
            contains title "eval()" || contains title "exec()" || contains title "deserialization")
          titles)
        "achieve arbitrary code execution"
    ++ step_if (any_title "privilege escalation" titles) "escalate privileges"
    ++ step_if (any_title "lateral movement" titles) "pivot to internal network assets"

abbrev pub chain_of : String × List String → List Draft
chain_of (file, titles) = report_if (leb 2 (length (steps_of titles))) (
    draft "Chained attack path identified" FindingSeverity.critical
      (concat "Multiple weaknesses in the same file could be chained by an attacker: "
        (concat (join " -> " (steps_of titles)) "."))
      file
      "Remediate each step, prioritizing the earliest one in the chain to break the attack path with the least effort.")

-- `_chain_attack_paths`
unfoldable pub chain_attack_paths : List Draft → List Draft
chain_attack_paths findings = flat_map chain_of (titles_by_file findings [])

module _ (fs : Files) where
  unfoldable pub analyze_attack_vectors : String → List Draft
  analyze_attack_vectors = each_file fs "*.py" (λ path content.
      report_if (matches fs "eval\\s*\\(" false content) (
        draft "Dangerous eval() usage detected" FindingSeverity.critical
          "Code uses eval() which can lead to arbitrary code execution." path
          "Replace eval() with safer alternatives like ast.literal_eval().")
      ++ report_if (matches fs "exec\\s*\\(" false content) (
          draft "Dangerous exec() usage detected" FindingSeverity.critical
            "Code uses exec() which can lead to arbitrary code execution." path
            "Replace exec() with safer alternatives.")
      ++ report_if (matches fs "pickle\\.(loads|load)\\s*\\(" false content) (
          draft "Insecure deserialization with pickle" FindingSeverity.critical
            "Pickle deserialization can execute arbitrary code." path
            "Use JSON or other safe serialization formats."))

  unfoldable pub check_auth_bypass_vectors : String → List Draft
  check_auth_bypass_vectors = each_file fs "*.py" (λ path content.
      report_if (matches fs "password\\s*=\\s*['\"]([^'\"]{1,})['\"]" true content) (
        draft "Hardcoded credentials detected" FindingSeverity.critical
          "Passwords or API keys appear to be hardcoded in source." path
          "Use environment variables or secure vaults for credentials.")
      ++ report_if (matches fs "if\\s+.*password.*==.*pass" true content) (
          draft "Weak authentication check" FindingSeverity.high
            "Authentication logic appears overly simplistic." path
            "Use proper authentication libraries (e.g., bcrypt, argon2)."))

  unfoldable pub check_injection_vectors : String → List Draft
  check_injection_vectors = each_file fs "*.py" (λ path content.
      report_if (matches fs "query.*\\+.*input|format\\(.*query|f[\"'].*\\{.*query" true content) (
        draft "Potential SQL injection vulnerability" FindingSeverity.critical
          "Query construction uses string concatenation with user input." path
          "Use parameterized queries and prepared statements."))

  -- _PRIV_ESC_PATTERN
  abbrev priv_esc_pattern : String
  priv_esc_pattern =
      "os\\.system\\([^)]*sudo|subprocess\\.\\w+\\([^)]*sudo|chmod\\s*\\(\\s*[\"']?0?o?777|is_admin\\s*=\\s*True|role\\s*==\\s*[\"']admin[\"']"

  unfoldable pub check_privilege_escalation_vectors : String → List Draft
  check_privilege_escalation_vectors = each_file fs "*.py" (λ path content.
      report_if (matches fs priv_esc_pattern true content) (
        draft "Potential privilege escalation vector" FindingSeverity.high
          "Code contains a pattern commonly abused to escalate privileges (elevated shell-out, overly-permissive file mode, or a trust-the-caller admin check)."
          path
          "Avoid running subprocesses with elevated privileges from application code, use least-permissive file modes, and derive admin status from a verified session/role, never from client-controlled input."))

  -- _INTERNAL_HOST_PATTERN
  abbrev internal_host_pattern : String
  internal_host_pattern =
      "\\b(10\\.\\d{1,3}\\.\\d{1,3}\\.\\d{1,3}|172\\.(?:1[6-9]|2\\d|3[01])\\.\\d{1,3}\\.\\d{1,3}|192\\.168\\.\\d{1,3}\\.\\d{1,3})\\b"

  abbrev internal_host : String → Option String → List Draft
  internal_host path none = []
  internal_host path (some address) =
      draft "Hardcoded internal network address (lateral movement risk)" FindingSeverity.medium
        (concat "Found a hardcoded internal/private network address (" (
          concat address
            ") in source code. If this code path is reachable by an attacker (e.g. via SSRF), it discloses an internal pivot point."))
        path
        "Move internal endpoints to configuration/secrets management, and validate/allowlist any user-influenced network destinations."
      ∷ []

  unfoldable pub check_lateral_movement_indicators : String → List Draft
  check_lateral_movement_indicators =
      each_file fs "*.py"
        (λ path content. internal_host path (fs.search internal_host_pattern false content))

  -- what the checks find, and what the chains are made of
  unfoldable pub weaknesses : String → List Draft
  weaknesses target =
      analyze_attack_vectors target
      ++ check_auth_bypass_vectors target
      ++ check_injection_vectors target
      ++ check_privilege_escalation_vectors target
      ++ check_lateral_movement_indicators target

  unfoldable pub execute_on : String → List Draft
  execute_on target =
      let findings = weaknesses target in
      or_else
        (draft "Red team assessment completed" FindingSeverity.low
          "No obvious exploitable attack paths detected in preliminary assessment." target
          "Conduct regular red-team exercises to validate defenses.")
        (findings ++ chain_attack_paths findings)

  -- `RedTeamAgent.execute`
  unfoldable pub execute : Option String → List Draft
  execute = for_target execute_on
