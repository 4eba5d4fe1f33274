-- ===== src/Assessments/Status.antt =====
-- `_reconcile_assessment_status`: the status of an assessment from those of its scan jobs.
use security_review_ai.Prelude.{Bool, true, false, List, any, if◌then◌else◌}
use security_review_ai.Domain.Assessment.{Assessment, AssessmentStatus, ScanJob, ScanStatus}

-- PENDING or RUNNING
abbrev pub is_active : ScanStatus → Bool
is_active ScanStatus.pending = true
is_active ScanStatus.running = true
is_active _ = false

abbrev pub is_failed : ScanStatus → Bool
is_failed ScanStatus.failed = true
is_failed _ = false

abbrev pub is_completed : ScanStatus → Bool
is_completed ScanStatus.completed = true
is_completed _ = false

abbrev pub some_job : (ScanStatus → Bool) → List ScanJob → Bool
some_job p jobs = any (λ j. p j.status) jobs

unfoldable pub reconciled : List ScanJob → AssessmentStatus
reconciled jobs =
    if some_job is_active jobs
    then AssessmentStatus.analyzing
    else if some_job is_failed jobs
    then AssessmentStatus.failed
    else if some_job is_completed jobs
    then AssessmentStatus.completed
    else AssessmentStatus.created

abbrev pub reconcile_assessment_status : Assessment → Assessment
reconcile_assessment_status a = record a { status = reconciled a.scan_jobs }
