-- ===== src/Assessments/Isolation.antt =====
-- What each operation of `AssessmentService` does to the table, for the organization that calls it.
use mathlib.Core.Path.{subst}
use security_review_ai.Prelude.{
  ℕ, ◌≡◌, refl, ◌∙◌, sym, String, Bool, true, false, Option, none, some, List, [], ◌∷◌, arith,
  find_first, inl, inr, Option-cases,
}
use security_review_ai.Exec.{ok, Result-cases, ◌>>=◌}
use security_review_ai.System.{System, Action}
use security_review_ai.Domain.Assessment.{
  ScanJob, Repository, Assessment, AssessmentCreateRequest, RepositoryCreateRequest,
  ScanJobCreateRequest, new_assessment,
}
use security_review_ai.Persistence.Assessments.{AssessmentRow, get, delete, has_id}
use security_review_ai.Persistence.Assessments.Own.{Own, untouched, written, added, removed}
use security_review_ai.Persistence.AuditLog.{record_entry}
use security_review_ai.Billing.Service.{enforce_assessment_limit, enforce_scan_job_limit}
use security_review_ai.Assessments.Service.{
  Disk, create_assessment, delete_assessment, delete_repository, ingest_repository, load,
  repository_has_id, cleanup_repository_clone, cleanup_all,
}
use security_review_ai.Assessments.Scans.{
  create_scan_job, enforce_if_given, start_if_idle, scan_target, authorize,
}

cleanup-assessments :
    (disk : Disk) (r : Repository) (s : System)
    → (cleanup_repository_clone disk r s).1.assessments ≡ s.assessments
cleanup-assessments disk r s = elim (Option-cases r.local_path) [
  | inl e ↦ ground arith
  | inr (p, e) ↦ ground arith
]

cleanup_passes :
    (disk : Disk) (r : Repository) (s : System) → (cleanup_repository_clone disk r s).0 ≡ ok tt
cleanup_passes disk r s = elim (Option-cases r.local_path) [
  | inl e ↦ ground arith
  | inr (p, e) ↦ ground arith
]

cleanup_all-assessments :
    (disk : Disk) (t : List Repository) (s : System)
    → (cleanup_all disk t s).1.assessments ≡ s.assessments
unfolding cleanup_all
cleanup_all-assessments disk [] s = refl
cleanup_all-assessments disk (r ∷ t) s = ground (
  arith,
  cleanup_passes disk r s,
  cleanup-assessments disk r s,
  cleanup_all-assessments disk t (cleanup_repository_clone disk r s).1,
)

pub ingest_Own :
    (new_id now id : ℕ) (payload : RepositoryCreateRequest) (o : ℕ) (s : System)
    → Own o s.assessments (ingest_repository new_id now id payload (some o) s).1.assessments
unfolding ingest_repository
ingest_Own new_id now id payload o s = elim (Result-cases (get id (some o) s.assessments)) [
  | inl (a, e) ↦ rw e (written id a _ s.assessments e refl refl)
  | inr (x, e) ↦ rw e (untouched s.assessments)
]

pub delete_repository-Own :
    (disk : Disk) (now id repository_id o : ℕ) (s : System)
    → Own o s.assessments (delete_repository disk now id repository_id (some o) s).1.assessments
unfolding delete_repository
delete_repository-Own disk now id repository_id o s =
    elim (Result-cases (get id (some o) s.assessments)) [
      | inl (a, e) ↦
          rw e (elim (Option-cases (find_first (repository_has_id repository_id) a.repositories)) [
            | inl f ↦ rw f (untouched s.assessments)
            | inr (r, f) ↦ rw f (
                subst (Own o s.assessments) (sym (cleanup-assessments disk r _))
                  (written id a _ s.assessments e refl refl))
          ])
      | inr (x, e) ↦ rw e (untouched s.assessments)
    ]

pub delete_assessment-Own :
    (disk : Disk) (id o : ℕ) (s : System)
    → Own o s.assessments (delete_assessment disk id (some o) s).1.assessments
unfolding delete_assessment
delete_assessment-Own disk id o s = elim (Result-cases (delete id (some o) s.assessments)) [
  | inl ((a, t), e) ↦ rw e (
      subst (Own o s.assessments) (sym (cleanup_all-assessments disk a.repositories _))
        (removed id a s.assessments t e))
  | inr (x, e) ↦ rw e (untouched s.assessments)
]

keeps_then :
    {A B : Type 0} (o : ℕ) (t : List AssessmentRow) (m : Action A) (f : A → Action B) (s : System)
    → s.assessments ≡ t
    → (m s).1.assessments ≡ s.assessments
    → ((a : A) (s₁ : System) → (m s).0 ≡ ok a → s₁.assessments ≡ t → Own o t (f a s₁).1.assessments)
    → Own o t ((m >>= f) s).1.assessments
keeps_then o t m f s h k next = elim (Result-cases (m s).0) [
  | inl (a, e) ↦ rw e (next a (m s).1 e (k ∙ h))
  | inr (x, e) ↦ rw e (subst (Own o t) (sym (k ∙ h)) (untouched t))
]

limit_keeps : (o : ℕ) (s : System) → (enforce_assessment_limit o s).1.assessments ≡ s.assessments
unfolding enforce_assessment_limit
limit_keeps o s = ground arith

pub create_assessment-Own :
    (new_id now o : ℕ) (payload : AssessmentCreateRequest) (s : System)
    → find_first (has_id new_id) s.assessments ≡ none
    → Own o s.assessments (create_assessment new_id now payload o s).1.assessments
unfolding create_assessment
create_assessment-Own new_id now o payload s new =
    keeps_then o s.assessments (enforce_assessment_limit o) _ s refl (limit_keeps o s) (λ _ s₁ _ h₁.
      rw h₁ (
        added (new_assessment new_id now payload.name payload.description o) s.assessments new
          refl))

start_keeps :
    (now : ℕ) (a : Assessment) (s : System) → (start_if_idle now a s).1.assessments ≡ s.assessments
start_keeps now a s = ground arith

start_same :
    (now : ℕ) (a b : Assessment) (s : System)
    → (start_if_idle now a s).0 ≡ ok b
    → (b.id ≡ a.id) × (b.organization_id ≡ a.organization_id)
start_same now a b s h = (ground arith, ground arith)

target_keeps :
    (id : Option ℕ) (target : Option String) (a : Assessment) (s : System)
    → (scan_target id target a s).1.assessments ≡ s.assessments
target_keeps none target a s = refl
target_keeps (some id) target a s =
    elim (Option-cases (find_first (repository_has_id id) a.repositories)) [
      | inl e ↦ ground arith
      | inr (r, e) ↦ ground arith
    ]

authorize_keeps :
    (b : Bool) (entry_id now : ℕ) (org : Option ℕ) (by : Option String) (a : Assessment)
    (job : ScanJob) (s : System)
    → (authorize b entry_id now org by a job s).1.assessments ≡ s.assessments
unfolding record_entry
authorize_keeps false entry_id now org by a job s = refl
authorize_keeps true entry_id now org by a job s = ground arith

pub create_scan_job-Own :
    (new_id entry_id now id o : ℕ) (payload : ScanJobCreateRequest) (by : Option String)
    (s : System)
    → Own o s.assessments
        (create_scan_job new_id entry_id now id payload (some o) by s).1.assessments
unfolding create_scan_job enforce_scan_job_limit
create_scan_job-Own new_id entry_id now id o payload by s =
    keeps_then o s.assessments (enforce_if_given (some o)) _ s refl (ground arith) (λ _ s₁ _ h₁.
      keeps_then o s.assessments (load id (some o)) _ s₁ h₁ refl (λ a s₂ e₂ h₂.
        keeps_then o s.assessments (start_if_idle now a) _ s₂ h₂ (start_keeps now a s₂)
          (λ a₁ s₃ e₃ h₃.
            keeps_then o s.assessments (scan_target payload.repository_id payload.target a₁) _ s₃ h₃
              (target_keeps payload.repository_id payload.target a₁ s₃)
              (λ target s₄ _ h₄.
                keeps_then o s.assessments
                  (authorize payload.target_authorization_confirmed entry_id now (some o) by a₁ _) _
                  s₄ h₄
                  (authorize_keeps payload.target_authorization_confirmed entry_id now (some o) by
                    a₁ _ s₄)
                  (λ job s₅ _ h₅. rw h₅ (
                    written id a _ s.assessments (subst (λ t. get id (some o) t ≡ ok a) h₁ e₂)
                      (start_same now a a₁ s₂ e₃).0 (start_same now a a₁ s₂ e₃).1))))))
