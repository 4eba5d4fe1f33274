-- ===== src/Api/Endpoints.antt =====
-- The endpoints that need a bearer token, as one type of requests and one function that serves them.
-- A constructor has the path and body parameters, and the ids, tokens and later times of the call.
pub mod Gate
use security_review_ai.Prelude.{ℕ, String, Option}
use security_review_ai.Exec.{Result}
use security_review_ai.System.{System}
use security_review_ai.Domain.Auth.{UserRole}
use security_review_ai.Domain.Billing.{PlanTier}
use security_review_ai.Domain.Assessment.{
  AssessmentCreateRequest, RepositoryCreateRequest, ScanJob, ScanJobCreateRequest, TrivyScanRequest,
}
use security_review_ai.Security.OutboundUrl.{Network}
use security_review_ai.Security.PasswordHasher.{Bytes}
use security_review_ai.Scanners.Factory.{AgentRun}
use security_review_ai.Mail.{EmailProvider}
use security_review_ai.Billing.Payment.{PaymentProvider}
use security_review_ai.Auth.{TokenCodec, Digests}
use security_review_ai.Assessments.Webhook.{WebhookHost}
use security_review_ai.Assessments.Service.{Disk}
use security_review_ai.Api.Http.{Handler, status_of}
use security_review_ai.Api.Routers.Assessments
use security_review_ai.Api.Routers.Accounts
use security_review_ai.Api.Routers.Plans

pub data Request : Type 0 where
  create_assessment : ℕ → AssessmentCreateRequest → Request
  get_assessment : ℕ → Request
  list_assessments : ℕ → ℕ → Request
  delete_assessment : ℕ → Request
  ingest_repository : ℕ → ℕ → RepositoryCreateRequest → Request
  list_repositories : ℕ → Request
  get_repository : ℕ → ℕ → Request
  delete_repository : ℕ → ℕ → Request
  create_scan_job : ℕ → ℕ → ℕ → ℕ → ScanJobCreateRequest → Request
  list_scan_jobs : ℕ → Request
  list_findings : ℕ → Request
  get_report : ℕ → Request
  get_scan_job : ℕ → ℕ → Request
  stream_scan_job_status : ℕ → ℕ → Request
  run_trivy_scan : ℕ → ℕ → ℕ → TrivyScanRequest → Request
  run_trivy_scan_async : ℕ → ℕ → ℕ → ℕ → TrivyScanRequest → Request
  get_me : Request
  list_members : Request
  invite_member : ℕ → ℕ → Bytes → String → String → String → UserRole → Request
  change_member_role : ℕ → UserRole → Request
  remove_member : ℕ → Request
  get_usage : Request
  subscribe : PlanTier → Request
  get_consent_log : Request

-- what the process has: its secrets, its providers and the world outside
pub record Host : Type 0 where
  pub codec : TokenCodec
  pub digests : Digests
  pub mail : EmailProvider
  pub payments : PaymentProvider
  pub base_url : Result String
  pub disk : Disk
  pub net : Network
  pub hook : WebhookHost
  pub run : AgentRun
  -- what get_scan_job finds for an assessment and a job at the n-th poll of an event stream, and
  -- json.dumps of a job
  pub poll : ℕ → ℕ → ℕ → Option ScanJob
  pub json : ScanJob → String

-- the status code of the answer, and the state after it
abbrev pub status_only : {A : Type 0} → Handler A → System → ℕ × System
status_only h s = let (r, s') = h s in (status_of r, s')

unfoldable pub serve : Host → ℕ → Option String → Request → System → ℕ × System
serve h now auth (create_assessment i p) =
    status_only (Assessments.create_assessment h.codec now auth i p)
serve h now auth (get_assessment i) = status_only (Assessments.get_assessment h.codec now auth i)
serve h now auth (list_assessments l o) =
    status_only (Assessments.list_assessments h.codec now auth l o)
serve h now auth (delete_assessment i) =
    status_only (Assessments.delete_assessment h.codec now auth h.disk i)
serve h now auth (ingest_repository n i p) =
    status_only (Assessments.ingest_repository h.codec now auth n i p)
serve h now auth (list_repositories i) =
    status_only (Assessments.list_repositories h.codec now auth i)
serve h now auth (get_repository i r) =
    status_only (Assessments.get_repository h.codec now auth i r)
serve h now auth (delete_repository i r) =
    status_only (Assessments.delete_repository h.codec now auth h.disk i r)
serve h now auth (create_scan_job n e l i p) =
    status_only (Assessments.create_scan_job h.codec now auth h.net h.hook h.run n e l i p)
serve h now auth (list_scan_jobs i) = status_only (Assessments.list_scan_jobs h.codec now auth i)
serve h now auth (list_findings i) =
    status_only (Assessments.list_assessment_findings h.codec now auth i)
serve h now auth (get_report i) = status_only (Assessments.get_assessment_report h.codec now auth i)
serve h now auth (get_scan_job i j) = status_only (Assessments.get_scan_job h.codec now auth i j)
serve h now auth (stream_scan_job_status i j) =
    status_only (Assessments.stream_scan_job_status h.codec now auth (h.poll i j) h.json i j)
serve h now auth (run_trivy_scan n l i p) =
    status_only (Assessments.run_trivy_scan h.codec now auth h.net h.hook h.run n l i p)
serve h now auth (run_trivy_scan_async n e l i p) =
    status_only (Assessments.run_trivy_scan_async h.codec now auth h.net h.hook h.run n e l i p)
serve h now auth get_me = status_only (Accounts.get_me h.codec h.digests h.mail now auth)
serve h now auth list_members =
    status_only (Accounts.list_members h.codec h.digests h.mail now auth)
serve h now auth (invite_member i t salt p raw email role) =
    status_only (
      Accounts.invite_member h.codec h.digests h.mail now auth h.base_url i t salt p raw email role)
serve h now auth (change_member_role i role) =
    status_only (Accounts.change_member_role h.codec h.digests h.mail now auth i role)
serve h now auth (remove_member i) =
    status_only (Accounts.remove_member h.codec h.digests h.mail now auth i)
serve h now auth get_usage = status_only (Plans.get_usage h.payments h.codec now auth)
serve h now auth (subscribe plan) =
    status_only (Plans.subscribe h.payments h.codec now auth h.base_url plan)
serve h now auth get_consent_log = status_only (Plans.get_consent_audit_log h.codec now auth)
