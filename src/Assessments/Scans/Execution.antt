-- ===== src/Assessments/Scans/Execution.antt =====
-- A scan job from its start to its end, and the status that its assessment gets from it.
use security_review_ai.Prelude.{
  ℕ, ◌==◌, ◌≡◌, ◌≢◌, refl, inl, inr, true, false, none, some, List, [], ◌∷◌, ◌++◌, arith,
  if◌then◌else◌, All, ap, sym, ◌∙◌, find_first-passes, Option-cases, Bool-cases, find_first,
  update_first,
}
use mathlib.Core.List.{append-nil}
use security_review_ai.Exec.{ok, Result-cases}
use security_review_ai.System.{System}
use security_review_ai.Domain.Assessment.{
  Assessment, Finding, AssessmentStatus, ScanJob, ScanStatus,
}
use security_review_ai.Assessments.Status.{is_active, is_failed, is_completed, some_job, reconciled}
use security_review_ai.Assessments.Scans.{
  execute_scan_job, ended, running, put_job, found_by, finish,
}
use security_review_ai.Persistence.Assessments.{AssessmentRow, get, save}
use security_review_ai.Persistence.Assessments.Isolation.{IsAgreed, get_id}
use security_review_ai.Assessments.Service.{job_has_id}
use security_review_ai.Security.OutboundUrl.{Network, validate_public_http_url}
use security_review_ai.Scanners.Factory.{AgentRun, AgentOutcome, found, raised, create}
use security_review_ai.Assessments.Webhook.{WebhookHost, notify_webhook, record_scan_metrics}

-- a job as it is after an agent that returned, and after one that raised
abbrev pub concluded : AgentOutcome → ℕ → ℕ → ScanJob → ScanJob
concluded (found findings) now later j = record j {
  status = ScanStatus.completed;
  started_at = some now;
  completed_at = some later;
}
concluded (raised text) now later j = record j {
  status = ScanStatus.failed;
  started_at = some now;
  completed_at = some later;
  error_message = some text;
}

-- the findings that an assessment has after an agent
abbrev pub findings_after : AgentOutcome → List Finding → List Finding
findings_after (found new) old = old ++ new
findings_after (raised text) old = old

concluded-ended :
    (o : AgentOutcome) (now later : ℕ) (j : ScanJob)
    → ended o later (running now j) ≡ concluded o now later j
concluded-ended (found findings) now later j = refl
concluded-ended (raised text) now later j = refl

findings_after-found_by :
    (o : AgentOutcome) (old : List Finding) → old ++ found_by o ≡ findings_after o old
findings_after-found_by (found new) old = refl
findings_after-found_by (raised text) old = append-nil old

-- what each status of an assessment says of its scan jobs
pub Describes : AssessmentStatus → List ScanJob → Type 0
Describes AssessmentStatus.analyzing jobs = some_job is_active jobs ≡ true
Describes AssessmentStatus.failed jobs =
    (some_job is_active jobs ≡ false) × (some_job is_failed jobs ≡ true)
Describes AssessmentStatus.completed jobs =
    All (λ j. j.status ≡ ScanStatus.completed) jobs × (jobs ≢ [])
Describes AssessmentStatus.created jobs = jobs ≡ []

ended_well :
    (jobs : List ScanJob)
    → some_job is_active jobs ≡ false
    → some_job is_failed jobs ≡ false
    → All (λ j. j.status ≡ ScanStatus.completed) jobs
ended_well [] a f = tt
ended_well (j ∷ t) a f = (ground arith, ended_well t (ground arith) (ground arith))

none_completed :
    (jobs : List ScanJob)
    → All (λ j. j.status ≡ ScanStatus.completed) jobs
    → some_job is_completed jobs ≡ false
    → jobs ≡ []
none_completed [] h e = refl
none_completed (j ∷ t) (h, _) e = absurd (ground arith)

-- The status that is set after a scan says of the jobs what it means: ANALYZING that one is
-- pending or running, FAILED that none is and one has failed, COMPLETED that all have completed
-- and there are some, CREATED that there are none.
pub reconciled-Describes : (jobs : List ScanJob) → Describes (reconciled jobs) jobs
unfolding reconciled Describes
reconciled-Describes jobs = elim (Bool-cases (some_job is_active jobs)) [
  | inl a ↦ rw (a, if◌then◌else◌) a
  | inr a ↦
      rw (a, if◌then◌else◌)
        (elim (Bool-cases (some_job is_failed jobs)) [
          | inl f ↦ rw (f, if◌then◌else◌) (a, f)
          | inr f ↦
              rw (f, if◌then◌else◌)
                (elim (Bool-cases (some_job is_completed jobs)) [
                  | inl c ↦ rw (c, if◌then◌else◌) (ended_well jobs a f, λ e. absurd (ground arith))
                  | inr c ↦ rw (c, if◌then◌else◌) (none_completed jobs (ended_well jobs a f) c)
                ])
        ])
]

get-save : (b : Assessment) (t : List AssessmentRow) → get b.id none (save b t) ≡ ok b
unfolding get save
get-save b [] = ground arith
get-save b (q ∷ t) = ground (arith, get-save b t)

update_first_twice :
    (k : ℕ) (x y : ScanJob) (jobs : List ScanJob)
    → job_has_id k y ≡ true
    → update_first (job_has_id k) (λ _. x) (update_first (job_has_id k) (λ _. y) jobs)
      ≡ update_first (job_has_id k) (λ _. x) jobs
update_first_twice k x y [] h = refl
update_first_twice k x y (j ∷ t) h = ground (arith, update_first_twice k x y t h)

module _ (net : Network) (hook : WebhookHost) (run : AgentRun) where
  notify_keeps :
      (job : ScanJob) (findings : List Finding) (s : System)
      → (notify_webhook net hook job findings s).1.assessments ≡ s.assessments
  unfolding notify_webhook
  notify_keeps job findings s = elim (Option-cases job.webhook_url) [
    | inl e ↦ ground arith
    | inr (url, e) ↦ elim (Result-cases (validate_public_http_url net url)) [
      | inl (u, f) ↦ ground arith
      | inr (x, f) ↦ ground arith
    ]
  ]

  finish_table :
      (later : ℕ) (a : Assessment) (job : ScanJob) (findings : List Finding) (s : System)
      → (finish net hook run later a job findings s).1.assessments
        ≡ save
            (record a {
              status = reconciled a.scan_jobs;
              findings = a.findings ++ findings;
              updated_at = later;
            })
            s.assessments
  unfolding record_scan_metrics
  finish_table later a job findings s =
      let b = record a {
        status = reconciled a.scan_jobs;
        findings = a.findings ++ findings;
        updated_at = later;
      } in
      let s₁ : System = record s { assessments = save b s.assessments } in
      elim (Result-cases (notify_webhook net hook job findings s₁).0) [
        | inl (u, e) ↦ rw e (notify_keeps job findings s₁)
        | inr (x, e) ↦ rw e (notify_keeps job findings s₁)
      ]

  -- A scan of a job that exists ends it: COMPLETED, with the agent's findings added to those of
  -- the assessment, where the agent returns, or FAILED, with the text of the exception and no new
  -- finding, where it raises, in both cases with the times of its start and its end. The other
  -- jobs stay, and the status becomes what the jobs make it. This holds however the webhook
  -- fares, where the columns of the rows agree with their payloads.
  pub execute_scan_job-outcome :
      (now later id job_id : ℕ) (s : System) (a : Assessment) (j : ScanJob)
      → All IsAgreed s.assessments
      → get id none s.assessments ≡ ok a
      → find_first (job_has_id job_id) a.scan_jobs ≡ some j
      → let outcome = run (create j.agent_type) j.target j.target_authorization_confirmed in
        let jobs =
          update_first (λ k. k.id == job_id) (λ _. concluded outcome now later j) a.scan_jobs in
        get id none (execute_scan_job net hook run now later id job_id s).1.assessments
        ≡ ok (record a {
          scan_jobs = jobs;
          status = reconciled jobs;
          findings = findings_after outcome a.findings;
          updated_at = later;
        })
  unfolding execute_scan_job
  execute_scan_job-outcome now later id job_id s a j g e f =
      let outcome = run (create j.agent_type) j.target j.target_authorization_confirmed in
      let a₁ : Assessment = record (put_job job_id (running now j) a) { updated_at = now } in
      let s₁ : System = record s { assessments = save a₁ s.assessments } in
      let a₂ : Assessment = put_job job_id (ended outcome later (running now j)) a₁ in
      let with_jobs : List ScanJob → Assessment = λ jobs. record a {
        scan_jobs = jobs;
        status = reconciled jobs;
        findings = a.findings ++ found_by outcome;
        updated_at = later;
      } in
      let j₂ = ended outcome later (running now j) in
      let twice =
        update_first_twice job_id j₂ (running now j) a.scan_jobs
          (find_first-passes (job_has_id job_id) a.scan_jobs j f) in
      let jobs_of : ScanJob → List ScanJob =
        λ k. update_first (job_has_id job_id) (λ _. k) a.scan_jobs in
      let as_stated : List ScanJob → List Finding → Assessment = λ jobs findings. record a {
        scan_jobs = jobs;
        status = reconciled jobs;
        findings = findings;
        updated_at = later;
      } in
      rw (e, f)
        (ap (get id none) (finish_table later a₂ j₂ (found_by outcome) s₁)
          ∙ ap (λ k. get k none (save (with_jobs a₂.scan_jobs) s₁.assessments))
              (sym (get_id id s.assessments a g e))
          ∙ get-save (with_jobs a₂.scan_jobs) s₁.assessments
          ∙ ap (λ jobs. ok (with_jobs jobs)) twice
          ∙ ap (λ k. ok (as_stated (jobs_of k) (a.findings ++ found_by outcome)))
              (concluded-ended outcome now later j)
          ∙ ap (λ findings. ok (as_stated (jobs_of (concluded outcome now later j)) findings))
              (findings_after-found_by outcome a.findings))
