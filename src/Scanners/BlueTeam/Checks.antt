-- ===== src/Scanners/BlueTeam/Checks.antt =====
-- The checks of the source code, and `execute`, of blue_team_agent.py.
use security_review_ai.Prelude.{
  String, Bool, true, false, ◌||◌, not, Option, none, some, List, [], ◌∷◌, ◌++◌, any, contains,
}
use security_review_ai.Domain.Assessment.{FindingSeverity}
use security_review_ai.Scanners.Report.{
  Draft, draft, Files, report_if, or_else, for_target, matches, check_file,
}
use security_review_ai.Scanners.BlueTeam.Logs.{analyze_logs}

module _ (fs : Files) where
  -- whether the text of a file of the walk passes a test, where unreadable files are passed over
  abbrev file_passes : (String → Bool) → String → Bool
  file_passes p path = elim (fs.read path) [ none ↦ false | some content ↦ p content ]

  abbrev unless_any : (String → Bool) → Draft → String → List Draft
  unless_any p d target = elim (fs.is_dir target) [
    | true ↦ report_if (not (any (file_passes p) (fs.rglob "*.py" target))) d
    | false ↦ []
  ]

  unfoldable pub check_logging_instrumentation : String → List Draft
  check_logging_instrumentation target =
      unless_any (λ content. contains content "logging" || contains content "logger")
        (draft "Insufficient logging instrumentation" FindingSeverity.medium
          "Application lacks proper logging for security events." target
          "Add comprehensive logging for authentication, authorization, and sensitive operations.")
        target

  -- the finding at which the loop ends, if a file has one
  abbrev error_finding : String → String → List Draft
  error_finding path content = elim (matches fs "except\\s*:" false content) [
    | true ↦
        draft "Bare except clause found" FindingSeverity.low
          "Bare except can hide bugs and make debugging difficult." path
          "Catch specific exceptions and log them appropriately."
        ∷ []
    | false ↦ report_if (matches fs "raise.*f['\"].*password|raise.*f['\"].*token" true content) (
        draft "Potential sensitive data in exceptions" FindingSeverity.medium
          "Exception messages may leak sensitive information." path
          "Sanitize exception messages before exposing to users.")
  ]

  abbrev first_of : List Draft → List Draft → List Draft
  first_of [] later = later
  first_of (d ∷ t) later = d ∷ t

  abbrev first_error : List String → List Draft
  first_error [] = []
  first_error (path ∷ rest) = first_of (check_file fs error_finding path) (first_error rest)

  unfoldable pub check_error_handling : String → List Draft
  check_error_handling target = elim (fs.is_dir target) [
    | true ↦ first_error (fs.rglob "*.py" target)
    | false ↦ []
  ]

  unfoldable pub check_input_validation : String → List Draft
  check_input_validation target =
      unless_any (λ content. matches fs "validate|sanitize|escape|strip|check" true content)
        (draft "Limited input validation observed" FindingSeverity.medium
          "Code may lack sufficient input validation and sanitization." target
          "Implement comprehensive input validation using libraries like Pydantic.")
        target

  unfoldable pub execute_on : String → List Draft
  execute_on target =
      or_else
        (draft "Blue team assessment completed" FindingSeverity.low
          "Good defensive practices detected in preliminary assessment." target
          "Maintain strong security logging and incident response capabilities.")
        (check_logging_instrumentation target
          ++ check_error_handling target
          ++ check_input_validation target
          ++ analyze_logs fs target)

  -- `BlueTeamAgent.execute`
  unfoldable pub execute : Option String → List Draft
  execute = for_target execute_on
