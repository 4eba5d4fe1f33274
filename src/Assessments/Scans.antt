-- ===== src/Assessments/Scans.antt =====
-- The operations of `AssessmentService` on scan jobs.
pub mod Consent
pub mod Execution
use Prim.Native.String
use security_review_ai.Prelude.{
  ℕ, String, Bool, true, false, ◌||◌, not, Option, none, some, List, [], ◌∷◌, ◌++◌, update_first,
  if◌then◌else◌, is_truthy, is_nonempty,
}
use security_review_ai.Exec.{
  Result, ok, err, repository_not_ready, pure, raise, gets, lift, modify, or_raise, ◌>>=◌, ◌>>◌,
}
use security_review_ai.System.{Action, System}
use security_review_ai.Domain.Auth.{nil_organization_id}
use security_review_ai.Domain.Audit.{ConsentAuditEntry}
use security_review_ai.Domain.Assessment.{
  Assessment, AssessmentStatus, AgentType, agent_value, Finding, Repository, RepositoryIngestStatus,
  ScanJob, ScanJobCreateRequest, ScanStatus, TrivyScanRequest,
}
use security_review_ai.Domain.Assessment.Machine.{start_analysis}
use security_review_ai.Persistence.AuditLog.{record_entry}
use security_review_ai.Billing.Service.{enforce_scan_job_limit}
use security_review_ai.Security.OutboundUrl.{Network}
use security_review_ai.Scanners.Factory.{create, AgentRun, AgentOutcome, found, raised}
use security_review_ai.Assessments.Status.{reconcile_assessment_status}
use security_review_ai.Assessments.Webhook.{WebhookHost, notify_webhook, record_scan_metrics}
use security_review_ai.Assessments.Service.{load, store, find_repository, find_scan_job, job_has_id}

abbrev pub enforce_if_given : Option ℕ → Action (Unit {0})
enforce_if_given none = pure tt
enforce_if_given (some org) = enforce_scan_job_limit org

-- the status is CREATED or COMPLETED
abbrev pub can_start : AssessmentStatus → Bool
can_start AssessmentStatus.created = true
can_start AssessmentStatus.completed = true
can_start _ = false

abbrev pub start_if_idle : ℕ → Assessment → Action Assessment
start_if_idle now a = if can_start a.status then lift (start_analysis now a) else pure a

abbrev pub is_ready : RepositoryIngestStatus → Bool
is_ready RepositoryIngestStatus.ready = true
is_ready _ = false

abbrev ready_path : Repository → Action (Option String)
ready_path r =
    if not (is_ready r.status) || not (is_truthy r.local_path)
    then raise repository_not_ready
    else pure r.local_path

-- the payload's target, or the clone of the repository that it names
abbrev pub scan_target : Option ℕ → Option String → Assessment → Action (Option String)
scan_target none target a = pure target
scan_target (some id) target a = find_repository id a >>= ready_path

abbrev pub new_scan_job :
    ℕ → ℕ → AgentType → Option String → Option String → ScanStatus → Bool → ScanJob
new_scan_job new_id now agent target webhook status confirmed = record {
  id = new_id;
  name = String.◌++◌ (agent_value agent) " scan";
  agent_type = agent;
  target = target;
  status = status;
  started_at = none;
  completed_at = none;
  error_message = none;
  webhook_url = webhook;
  target_authorization_confirmed = confirmed;
  authorized_by = none;
  authorized_at = none;
  created_at = now;
}

-- confirmed_by or "unknown"
abbrev pub or_unknown : Option String → String
or_unknown none = "unknown"
or_unknown (some s) = if is_nonempty s then s else "unknown"

-- target or ""
abbrev pub or_empty : Option String → String
or_empty none = ""
or_empty (some s) = s

abbrev pub or_nil : Option ℕ → ℕ
or_nil none = nil_organization_id
or_nil (some org) = org

abbrev pub consent_entry : ℕ → ℕ → Option ℕ → Assessment → ScanJob → String → ConsentAuditEntry
consent_entry entry_id now org a job by = record {
  id = entry_id;
  organization_id = or_nil org;
  assessment_id = a.id;
  scan_job_id = job.id;
  agent_type = agent_value job.agent_type;
  target = or_empty job.target;
  confirmed_by = by;
  confirmed_at = now;
}

abbrev record_consent : ConsentAuditEntry → Action (Unit {0})
record_consent e = do
  t ← gets (λ s. record_entry e s.audit_log)
  log ← lift t
  modify (λ s. record s { audit_log = log })

abbrev pub authorized : String → ℕ → ScanJob → ScanJob
authorized by now job = record job { authorized_by = some by; authorized_at = some now }

-- the job with its authorization, which is in the audit log from here on
abbrev pub authorize :
    Bool → ℕ → ℕ → Option ℕ → Option String → Assessment → ScanJob → Action ScanJob
authorize false entry_id now org by a job = pure job
authorize true entry_id now org by a job = do
  record_consent (consent_entry entry_id now org a job (or_unknown by))
  pure (authorized (or_unknown by) now job)

unfoldable pub create_scan_job :
    ℕ → ℕ → ℕ → ℕ → ScanJobCreateRequest → Option ℕ → Option String → Action ScanJob
create_scan_job new_id entry_id now id payload org confirmed_by = do
  enforce_if_given org
  a ← load id org
  a₁ ← start_if_idle now a
  target ← scan_target payload.repository_id payload.target a₁
  job ← authorize payload.target_authorization_confirmed entry_id now org confirmed_by a₁ (
      new_scan_job new_id now payload.agent_type target payload.webhook_url ScanStatus.pending
        payload.target_authorization_confirmed)
  store (record a₁ { scan_jobs = a₁.scan_jobs ++ job ∷ []; updated_at = now })
  pure job

unfoldable pub list_scan_jobs : ℕ → Option ℕ → Action (List ScanJob)
list_scan_jobs id org = do a ← load id org; pure a.scan_jobs

unfoldable pub get_scan_job : ℕ → ℕ → Option ℕ → Action ScanJob
get_scan_job id job_id org = do a ← load id org; find_scan_job job_id a

abbrev pub running : ℕ → ScanJob → ScanJob
running now j = record j { status = ScanStatus.running; started_at = some now }

abbrev pub ended : AgentOutcome → ℕ → ScanJob → ScanJob
ended (found findings) later j = record j {
  status = ScanStatus.completed;
  completed_at = some later;
}
ended (raised text) later j = record j {
  status = ScanStatus.failed;
  completed_at = some later;
  error_message = some text;
}

abbrev pub found_by : AgentOutcome → List Finding
found_by (found findings) = findings
found_by (raised text) = []

-- a write through the scan job object that `_get_scan_job` returned
abbrev pub put_job : ℕ → ScanJob → Assessment → Assessment
put_job job_id j a = record a { scan_jobs = update_first (job_has_id job_id) (λ _. j) a.scan_jobs }

module _ (net : Network) (hook : WebhookHost) (run : AgentRun) where
  -- the `finally` block, after which the findings are those that were recorded
  abbrev pub finish : ℕ → Assessment → ScanJob → List Finding → Action (Unit {0})
  finish later a job findings = do
    let b = reconcile_assessment_status a
    store (record b { findings = b.findings ++ findings; updated_at = later })
    notify_webhook net hook job findings
    record_scan_metrics job findings

  unfoldable pub execute_scan_job : ℕ → ℕ → ℕ → ℕ → Action (Unit {0})
  execute_scan_job now later id job_id = do
    a ← load id none
    job ← find_scan_job job_id a
    let job₁ = running now job
    let a₁ = record (put_job job_id job₁ a) { updated_at = now }
    store a₁
    let outcome = run (create job.agent_type) job.target job.target_authorization_confirmed
    let job₂ = ended outcome later job₁
    finish later (put_job job_id job₂ a₁) job₂ (found_by outcome)

  unfoldable pub run_trivy_scan :
      ℕ → ℕ → ℕ → ℕ → TrivyScanRequest → Option ℕ → Action (List Finding)
  run_trivy_scan new_id now later id payload org = do
    a ← load id org
    let job =
        new_scan_job new_id now AgentType.trivy (some payload.target) payload.webhook_url
          ScanStatus.running false
    store (record a { scan_jobs = a.scan_jobs ++ job ∷ []; updated_at = now })
    let outcome = run (create AgentType.trivy) (some payload.target) false
    let job₁ = ended outcome later job
    finish later (record a { scan_jobs = a.scan_jobs ++ job₁ ∷ [] }) job₁ (found_by outcome)
    pure (found_by outcome)
