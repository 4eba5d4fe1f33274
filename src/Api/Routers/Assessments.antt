-- ===== src/Api/Routers/Assessments.antt =====
-- api/routers/assessment.py. New ids and times are arguments. Of the event stream this is the call
-- that starts it; what it then sends is in Api/Stream.antt.
use security_review_ai.Prelude.{
  ℕ, String, Option, none, some, List, [], ◌∷◌, Bool, ◌&&◌, leb, if◌then◌else◌,
}
use security_review_ai.Exec.{
  Error, key_error, repository_not_ready, plan_limit_exceeded, pure, gets, ◌>>=◌, ◌>>◌,
}
use security_review_ai.System.{Action}
use security_review_ai.Domain.Auth.{UserRole}
use security_review_ai.Domain.Assessment.{
  AgentType, AssessmentCreateRequest, AssessmentResponse, Finding, Repository,
  RepositoryCreateRequest, ScanJob, ScanJobCreateRequest, TrivyScanRequest,
}
use security_review_ai.Security.OutboundUrl.{Network}
use security_review_ai.Vcs.GitIngestion.{GitHost, IngestionError}
use security_review_ai.Scanners.Factory.{AgentRun}
use security_review_ai.Auth.{TokenCodec}
use security_review_ai.Assessments.Webhook.{WebhookHost}
use security_review_ai.Assessments.Report.{Report}
use security_review_ai.Assessments.Report
use security_review_ai.Assessments.Scans
use security_review_ai.Assessments.Service.{Disk}
use security_review_ai.Assessments.Service
use security_review_ai.Api.Stream.{Event, event_generator}
use security_review_ai.Api.Http.{
  Response, replied, failed, Handler, answer, not_found, no_handler, with_organization, with_roles,
  with_user,
}

-- a page of assessments and the X-Total-Count header
pub record Listing : Type 0 where
  pub total_count : ℕ
  pub assessments : List AssessmentResponse

-- `except PlanLimitExceededError`
abbrev pub payment_required : Error → ℕ
payment_required plan_limit_exceeded = 402
payment_required e = 500

abbrev pub on_scan_error : Error → ℕ
on_scan_error key_error = 404
on_scan_error repository_not_ready = 409
on_scan_error plan_limit_exceeded = 402
on_scan_error e = 500

-- owners and administrators
abbrev pub managers : List UserRole
managers = UserRole.owner ∷ UserRole.admin ∷ []

module _ (codec : TokenCodec) (now : ℕ) (header : Option String) where
  unfoldable pub create_assessment : ℕ → AssessmentCreateRequest → Handler AssessmentResponse
  create_assessment new_id payload =
      with_organization codec now header
        (λ org. answer 201 payment_required (Service.create_assessment new_id now payload org))

  unfoldable pub get_assessment : ℕ → Handler AssessmentResponse
  get_assessment id =
      with_organization codec now header
        (λ org. answer 200 not_found (Service.get_assessment id (some org)))

  abbrev listing : ℕ → ℕ → ℕ → Action Listing
  listing org limit offset = gets (λ s. record {
    total_count = Service.count_assessments (some org) s;
    assessments = Service.list_assessments (some org) (some limit) offset s;
  })

  -- `limit: int = Query(ge=1, le=200)`: another number is answered with a 422
  abbrev checked_listing : ℕ → ℕ → ℕ → Handler Listing
  checked_listing limit offset org s =
      if leb 1 limit && leb limit 200
      then answer 200 no_handler (listing org limit offset) s
      else (failed 422, s)

  unfoldable pub list_assessments : ℕ → ℕ → Handler Listing
  list_assessments limit offset = with_organization codec now header (checked_listing limit offset)

  unfoldable pub delete_assessment : Disk → ℕ → Handler (Unit {0})
  delete_assessment disk id =
      with_roles codec now header managers
        (λ org u. answer 204 not_found (Service.delete_assessment disk id (some org)))

  unfoldable pub ingest_repository : ℕ → ℕ → RepositoryCreateRequest → Handler Repository
  ingest_repository new_id id payload =
      with_organization codec now header
        (λ org. answer 201 not_found (Service.ingest_repository new_id now id payload (some org)))

  unfoldable pub list_repositories : ℕ → Handler (List Repository)
  list_repositories id =
      with_organization codec now header
        (λ org. answer 200 not_found (Service.list_repositories id (some org)))

  unfoldable pub get_repository : ℕ → ℕ → Handler Repository
  get_repository id repository_id =
      with_organization codec now header
        (λ org. answer 200 not_found (Service.get_repository id repository_id (some org)))

  unfoldable pub delete_repository : Disk → ℕ → ℕ → Handler (Unit {0})
  delete_repository disk id repository_id = with_roles codec now header managers (λ org u.
      answer 204 not_found (Service.delete_repository disk now id repository_id (some org)))

  unfoldable pub list_scan_jobs : ℕ → Handler (List ScanJob)
  list_scan_jobs id =
      with_organization codec now header
        (λ org. answer 200 not_found (Scans.list_scan_jobs id (some org)))

  unfoldable pub list_assessment_findings : ℕ → Handler (List Finding)
  list_assessment_findings id =
      with_organization codec now header
        (λ org. answer 200 not_found (Service.list_findings id (some org)))

  unfoldable pub get_assessment_report : ℕ → Handler Report
  get_assessment_report id =
      with_organization codec now header
        (λ org. answer 200 not_found (Report.get_assessment_report id (some org)))

  unfoldable pub get_scan_job : ℕ → ℕ → Handler ScanJob
  get_scan_job id job_id =
      with_organization codec now header
        (λ org. answer 200 not_found (Scans.get_scan_job id job_id (some org)))

  -- 200 with the events that follow, or 404 before there are any
  unfoldable pub stream_scan_job_status :
      (ℕ → Option ScanJob) → (ScanJob → String) → ℕ → ℕ → Handler (List Event)
  stream_scan_job_status poll json id job_id = with_organization codec now header (λ org.
      answer 200 not_found
        (Scans.get_scan_job id job_id (some org) >>= λ job. pure (event_generator poll json)))

  module _ (net : Network) (hook : WebhookHost) (run : AgentRun) where
    -- the job as it was created, after it has been executed
    abbrev create_and_execute :
        ℕ → ℕ → ℕ → ℕ → ScanJobCreateRequest → ℕ → Option String → Action ScanJob
    create_and_execute new_id entry_id later id payload org confirmed_by = do
      job ← Scans.create_scan_job new_id entry_id now id payload (some org) confirmed_by
      Scans.execute_scan_job net hook run now later id job.id
      pure job

    unfoldable pub create_scan_job : ℕ → ℕ → ℕ → ℕ → ScanJobCreateRequest → Handler ScanJob
    create_scan_job new_id entry_id later id payload = with_organization codec now header (λ org.
        with_user codec now header (λ u.
          answer 201 on_scan_error
            (create_and_execute new_id entry_id later id payload org (some u.email))))

    unfoldable pub run_trivy_scan : ℕ → ℕ → ℕ → TrivyScanRequest → Handler (List Finding)
    run_trivy_scan new_id later id payload = with_organization codec now header (λ org.
        answer 200 not_found
          (Scans.run_trivy_scan net hook run new_id now later id payload (some org)))

    abbrev trivy_request : TrivyScanRequest → ScanJobCreateRequest
    trivy_request payload = record {
      agent_type = AgentType.trivy;
      target = some payload.target;
      repository_id = none;
      webhook_url = payload.webhook_url;
      target_authorization_confirmed = Bool.false;
    }

    unfoldable pub run_trivy_scan_async : ℕ → ℕ → ℕ → ℕ → TrivyScanRequest → Handler ScanJob
    run_trivy_scan_async new_id entry_id later id payload =
        with_organization codec now header (λ org.
          answer 201 not_found
            (create_and_execute new_id entry_id later id (trivy_request payload) org none))

-- the task that `ingest_repository` leaves for after its response
unfoldable pub background_tasks :
    (IngestionError → String)
    → Network
    → GitHost
    → ℕ
    → ℕ
    → ℕ
    → Response Repository
    → List (Action (Unit {0}))
background_tasks message net git now later id (replied status r) =
    Service.run_repository_ingestion message net git now later id r.id ∷ []
background_tasks message net git now later id (failed status) = []
