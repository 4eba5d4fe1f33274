-- ===== src/Assessments/Report.antt =====
-- `get_assessment_report`.
pub mod Totals
use security_review_ai.Prelude.{
  ℕ, suc, String, str_eq, Bool, true, false, Option, none, some, List, [], ◌∷◌, length, count_if,
  map, if◌then◌else◌, is_nonempty,
}
use security_review_ai.Exec.{pure, ◌>>=◌}
use security_review_ai.System.{Action}
use security_review_ai.Domain.Assessment.{
  Assessment, AssessmentStatus, Finding, FindingSeverity, Repository, ScanJob, agent_value,
}
use security_review_ai.Assessments.Service.{load}

abbrev pub severity_eq : FindingSeverity → FindingSeverity → Bool
severity_eq FindingSeverity.low FindingSeverity.low = true
severity_eq FindingSeverity.medium FindingSeverity.medium = true
severity_eq FindingSeverity.high FindingSeverity.high = true
severity_eq FindingSeverity.critical FindingSeverity.critical = true
severity_eq _ _ = false

-- Counter over the severities, read with the default 0
abbrev pub severity_count : FindingSeverity → List Finding → ℕ
severity_count v findings = count_if (λ f. severity_eq f.severity v) findings

pub record SeverityCounts : Type 0 where
  pub critical : ℕ
  pub high : ℕ
  pub medium : ℕ
  pub low : ℕ

-- Counter[key] += 1, keys in order of their first occurrence
unfoldable pub increment : String → List (String × ℕ) → List (String × ℕ)
increment k [] = (k, 1) ∷ []
increment k ((j, n) ∷ t) = if str_eq j k then (j, suc n) ∷ t else (j, n) ∷ increment k t

unfoldable pub tally : List (String × ℕ) → List String → List (String × ℕ)
tally acc [] = acc
tally acc (k ∷ t) = tally (increment k acc) t

abbrev kept : Option String → List String → List String
kept none t = t
kept (some r) t = if is_nonempty r then r ∷ t else t

-- [finding.remediation for finding in findings if finding.remediation]
unfoldable pub recommendations_of : List Finding → List String
recommendations_of [] = []
recommendations_of (f ∷ t) = kept f.remediation (recommendations_of t)

pub record Report : Type 0 where
  pub assessment_id : ℕ
  pub name : String
  pub status : AssessmentStatus
  pub finding_count : ℕ
  pub severity_counts : SeverityCounts
  pub agent_breakdown : List (String × ℕ)
  pub recommendations : List String
  pub repositories : List String

unfoldable pub report_of : Assessment → Report
report_of a = record {
  assessment_id = a.id;
  name = a.name;
  status = a.status;
  finding_count = length a.findings;
  severity_counts = record {
    critical = severity_count FindingSeverity.critical a.findings;
    high = severity_count FindingSeverity.high a.findings;
    medium = severity_count FindingSeverity.medium a.findings;
    low = severity_count FindingSeverity.low a.findings;
  };
  agent_breakdown = tally [] (map (λ (j : ScanJob). agent_value j.agent_type) a.scan_jobs);
  recommendations = recommendations_of a.findings;
  repositories = map (λ (r : Repository). r.name) a.repositories;
}

unfoldable pub get_assessment_report : ℕ → Option ℕ → Action Report
unfolding report_of
get_assessment_report id org = do a ← load id org; pure (report_of a)
