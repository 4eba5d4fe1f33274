-- ===== src/Tests/Scanning.antt =====
-- Assessments, scan jobs, reports and repositories.
use security_review_ai.Persistence.Users.{get_organization}
use security_review_ai.Prelude.{
  ◌≤◌, ◌==◌, ◌≡◌, ◌+◌, ◌++◌, refl, true, none, some, List, [], ◌∷◌, arith, if◌then◌else◌,
  update_first,
}
use security_review_ai.Exec.{ok, err, plan_limit_exceeded}
use security_review_ai.System.{System}
use security_review_ai.Domain.Assessment.{
  AgentType, AssessmentCreateRequest, ScanJobCreateRequest, ScanJob, ScanStatus, new_assessment,
  to_response,
}
use security_review_ai.Persistence.Assessments.{get, count, to_row}
use security_review_ai.Persistence.Assessments.Isolation.{IsTable}
use security_review_ai.Billing.Service.{get_plan_definition, over_limit}
use security_review_ai.Assessments.Service.{Disk, create_assessment, delete_assessment}
use security_review_ai.Assessments.Status.{reconciled}
use security_review_ai.Assessments.Webhook.{WebhookHost, posted}
use security_review_ai.Assessments.Scans.{create_scan_job, execute_scan_job}
use security_review_ai.Assessments.Scans.Consent.{Audited, create_scan_job-audit}
use security_review_ai.Assessments.Scans.Execution.{
  Describes, reconciled-Describes, execute_scan_job-outcome,
}
use security_review_ai.Assessments.Tenants.{here, next, rows_of, deletes, Others-isolated}
use security_review_ai.Assessments.Limits.{create_assessment-limit, create_assessment-within}
use security_review_ai.Assessments.Report.{report_of}
use security_review_ai.Assessments.Report.Totals.{total, report_of-totals}
use security_review_ai.Scanners.Factory.{AgentRun, raised}
use security_review_ai.Tests.{sample, review, other_review, pending_job, net}

abbrev disk : Disk
disk = record { resolve = λ p. p; exists = λ p. true }

sample_IsTable : IsTable sample.assessments
sample_IsTable = ((refl, (refl, tt)), ((refl, refl), ((refl, refl), tt)))

Others-isolated_example :
    let s' = (delete_assessment disk 7 (some 1) sample).1 in
    IsTable s'.assessments × (rows_of 2 s'.assessments ≡ to_row other_review ∷ [])
Others-isolated_example =
    Others-isolated 2 sample_IsTable
      (next 1 here (λ e. absurd (omega arith)) (deletes disk 7 sample))

abbrev request : AssessmentCreateRequest
request = record { name = "Next"; description = none }

abbrev start : System
start = record sample { assessments = to_row other_review ∷ [] }

create_assessment-limit_example :
    let over =
      over_limit 1
        (get_plan_definition 1 start).max_assessments
        (count (some 1) start.assessments) in
    let (r, s') = create_assessment 9 6 request 1 start in
    if over
    then (r ≡ err plan_limit_exceeded) × (s' ≡ start)
    else (r ≡ ok (to_response (new_assessment 9 6 "Next" none 1)))
      × (count (some 1) s'.assessments ≡ count (some 1) start.assessments + 1)
create_assessment-limit_example = create_assessment-limit 9 6 1 request start refl

create_assessment-within_example :
    count (some 1) (create_assessment 9 6 request 1 start).1.assessments ≤ 3
unfolding get_plan_definition get_organization count
create_assessment-within_example =
    create_assessment-within 9 6 1 3 request start refl (λ e. absurd (omega arith)) refl
      (omega arith)

abbrev job_request : ScanJobCreateRequest
job_request = record {
  agent_type = AgentType.white_box;
  target = some "/srv/app";
  repository_id = none;
  webhook_url = none;
  target_authorization_confirmed = true;
}

create_scan_job-audit_example :
    let (r, s') = create_scan_job 9 3 6 7 job_request (some 1) (some "ann@x.io") sample in
    Audited 9 3 6 (some 1) (some "ann@x.io") job_request review true r [] s'.audit_log
unfolding get
create_scan_job-audit_example =
    create_scan_job-audit 9 3 6 7 job_request (some 1) (some "ann@x.io") sample review refl

abbrev ten_jobs : List ScanJob
ten_jobs =
    pending_job ∷ pending_job ∷ pending_job ∷ pending_job ∷ pending_job ∷ pending_job ∷ pending_job
    ∷ pending_job ∷ pending_job ∷ pending_job ∷ []

abbrev at_limit : System
at_limit = record sample {
  assessments = to_row (record review { scan_jobs = ten_jobs ++ ten_jobs }) ∷ [];
}

abbrev hook : WebhookHost
hook = record { secret = none; sign = λ k p. k; post = λ d. posted }

abbrev failing : AgentRun
failing = λ c target confirmed. raised "no such directory"

execute_scan_job-outcome_example :
    let jobs =
      update_first
        (λ (j : ScanJob). j.id == 4)
        (λ _. record pending_job {
          status = ScanStatus.failed;
          started_at = some 8;
          completed_at = some 9;
          error_message = some "no such directory";
        })
        review.scan_jobs in
    get 7 none (execute_scan_job net hook failing 8 9 7 4 sample).1.assessments
    ≡ ok (record review {
      scan_jobs = jobs;
      status = reconciled jobs;
      findings = [];
      updated_at = 9;
    })
unfolding get
execute_scan_job-outcome_example =
    execute_scan_job-outcome net hook failing 8 9 7 4 sample review pending_job sample_IsTable.1
      refl refl

reconciled-Describes_example : Describes (reconciled (pending_job ∷ [])) (pending_job ∷ [])
reconciled-Describes_example = reconciled-Describes (pending_job ∷ [])

report_of-totals_example :
    let r = report_of review in
    (r.severity_counts.critical + r.severity_counts.high + r.severity_counts.medium
        + r.severity_counts.low
      ≡ r.finding_count)
    × (total r.agent_breakdown ≡ 1)
report_of-totals_example = report_of-totals review
