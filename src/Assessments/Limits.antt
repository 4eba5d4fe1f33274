-- ===== src/Assessments/Limits.antt =====
-- The plan limits, as the operations that create things meet them.
use security_review_ai.Prelude.{
  String, ◌≤◌, [], ◌∷◌, Bool-cases, inl, inr, ℕ, ◌+◌, ◌≡◌, ◌≢◌, refl, true, Option, none, some,
  List, arith, if◌then◌else◌, find_first,
}
use security_review_ai.Exec.{ok, err, plan_limit_exceeded}
use security_review_ai.System.{System}
use security_review_ai.Domain.Auth.{nil_organization_id}
use security_review_ai.Domain.Assessment.{
  Assessment, to_response, new_assessment, AssessmentCreateRequest, ScanJobCreateRequest,
}
use security_review_ai.Persistence.Assessments.{AssessmentRow, count, save, has_id}
use security_review_ai.Billing.Service.{
  get_plan_definition, enforce_assessment_limit, enforce_scan_job_limit, over_limit, scan_jobs_used,
}
use security_review_ai.Assessments.Service.{create_assessment}
use security_review_ai.Assessments.Scans.{create_scan_job}

count-save_new :
    (o : ℕ) (b : Assessment) (t : List AssessmentRow)
    → find_first (has_id b.id) t ≡ none
    → b.organization_id ≡ o
    → count (some o) (save b t) ≡ count (some o) t + 1
unfolding count save
count-save_new o b [] h e = ground arith
count-save_new o b (q ∷ t) h e = ground (arith, count-save_new o b t)

-- Creating an assessment at an id that is new either raises PlanLimitExceededError and changes
-- nothing, when the organization has a limited plan and is at its limit, or else answers with the
-- new assessment and raises the organization's number of assessments by one.
pub create_assessment-limit :
    (new_id now org : ℕ) (payload : AssessmentCreateRequest) (s : System)
    → find_first (has_id new_id) s.assessments ≡ none
    → let over =
        over_limit org
          (get_plan_definition org s).max_assessments
          (count (some org) s.assessments) in
      let (r, s') = create_assessment new_id now payload org s in
      if over
      then (r ≡ err plan_limit_exceeded) × (s' ≡ s)
      else (r ≡ ok (to_response (new_assessment new_id now payload.name payload.description org)))
        × (count (some org) s'.assessments ≡ count (some org) s.assessments + 1)
unfolding create_assessment enforce_assessment_limit
create_assessment-limit new_id now org payload s new =
    elim (Bool-cases (
      over_limit org (get_plan_definition org s).max_assessments
        (count (some org) s.assessments))) [
          | inl e ↦ rw (e, if◌then◌else◌) (ground arith)
          | inr e ↦
              rw (e, if◌then◌else◌)
                (
                  ground arith,
                  count-save_new org
                      (new_assessment new_id now payload.name payload.description org) s.assessments
                      new refl,
                )
        ]

-- A plan that limits assessments to `n` holds: an organization other than the nil one that has at
-- most `n` assessments has at most `n` after any call of create_assessment at a new id.
pub create_assessment-within :
    (new_id now org n : ℕ) (payload : AssessmentCreateRequest) (s : System)
    → find_first (has_id new_id) s.assessments ≡ none
    → org ≢ nil_organization_id
    → (get_plan_definition org s).max_assessments ≡ some n
    → count (some org) s.assessments ≤ n
    → count (some org) (create_assessment new_id now payload org s).1.assessments ≤ n
unfolding create_assessment enforce_assessment_limit
create_assessment-within new_id now org n payload s new real limit h = ground (
  arith,
  count-save_new org (new_assessment new_id now payload.name payload.description org) s.assessments,
)

-- A scan job that an organization at its limit asks for is refused with PlanLimitExceededError,
-- whatever it is, and nothing changes.
create_scan_job-limit :
    (new_id entry_id now id org : ℕ) (payload : ScanJobCreateRequest) (by : Option String)
    (s : System)
    → over_limit org (get_plan_definition org s).max_scan_jobs (scan_jobs_used org s) ≡ true
    → create_scan_job new_id entry_id now id payload (some org) by s ≡ (err plan_limit_exceeded, s)
unfolding create_scan_job enforce_scan_job_limit
create_scan_job-limit new_id entry_id now id org payload by s h = ground arith
