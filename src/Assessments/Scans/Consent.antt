-- ===== src/Assessments/Scans/Consent.antt =====
-- The consent that a scan job needs, and its audit trail.
use security_review_ai.Prelude.{
  ℕ, ◌≡◌, refl, inl, inr, String, Bool, true, false, Option, none, some, List, [], ◌∷◌, ◌++◌, arith,
  any, if◌then◌else◌, Option-cases, ◌∙◌, sym, Bool-cases, find_first, ◌==◌, is_nonempty,
}
use security_review_ai.Exec.{Result, ok, err, steady_then, pure, ◌>>=◌, ◌>>◌}
use security_review_ai.System.{System}
use security_review_ai.Domain.Audit.{ConsentAuditEntry}
use security_review_ai.Domain.Auth.{nil_organization_id}
use security_review_ai.Domain.Assessment.{Assessment, ScanJob, ScanJobCreateRequest, agent_value}
use security_review_ai.Persistence.AuditLog.{record_entry}
use security_review_ai.Billing.Service.{enforce_scan_job_limit}
use security_review_ai.Persistence.Assessments.{get}
use security_review_ai.Assessments.Service.{store, load, repository_has_id}
use security_review_ai.Assessments.Scans.{
  create_scan_job, consent_entry, or_unknown, enforce_if_given, start_if_idle, authorize,
  scan_target, authorized,
}

-- who confirmed, as the audit log has it
abbrev pub confirmer : Option String → String
confirmer none = "unknown"
confirmer (some by) = if is_nonempty by then by else "unknown"

-- what the answer of a call and the audit log before and after it say of each other: a job that
-- was created with consent carries its authorization and has one new entry, of these contents;
-- otherwise nothing is written
abbrev pub Audited :
    ℕ
    → ℕ
    → ℕ
    → Option ℕ
    → Option String
    → ScanJobCreateRequest
    → Assessment
    → Bool
    → Result ScanJob
    → List ConsentAuditEntry
    → List ConsentAuditEntry
    → Type 0
Audited new_id entry_id now org by payload a _ (err e) log log' = log' ≡ log
Audited new_id entry_id now org by payload a false (ok j) log log' = log' ≡ log
Audited new_id entry_id now org by payload a true (ok j) log log' =
    (j.id ≡ new_id)
    × (j.authorized_by ≡ some (confirmer by))
    × (j.authorized_at ≡ some now)
    × (log'
        ≡ log
          ++ record {
            id = entry_id;
            organization_id = elim org [ none ↦ nil_organization_id | some o ↦ o ];
            assessment_id = a.id;
            scan_job_id = new_id;
            agent_type = agent_value payload.agent_type;
            target = elim j.target [ none ↦ "" | some t ↦ t ];
            confirmed_by = confirmer by;
            confirmed_at = now;
          }
            ∷ [])

enforce_steady : (org : Option ℕ) (s : System) → (enforce_if_given org s).1 ≡ s
unfolding enforce_scan_job_limit
enforce_steady none s = refl
enforce_steady (some o) s = ground arith

start_steady : (now : ℕ) (a : Assessment) (s : System) → (start_if_idle now a s).1 ≡ s
start_steady now a s = ground arith

start_same :
    (now : ℕ) (a b : Assessment) (s : System) → (start_if_idle now a s).0 ≡ ok b → b.id ≡ a.id
start_same now a b s h = ground arith

target_steady :
    (id : Option ℕ) (target : Option String) (a : Assessment) (s : System)
    → (scan_target id target a s).1 ≡ s
target_steady none target a s = refl
target_steady (some id) target a s =
    elim (Option-cases (find_first (repository_has_id id) a.repositories)) [
      | inl e ↦ ground arith
      | inr (r, e) ↦ ground arith
    ]

unknown-confirmer : (by : Option String) → or_unknown by ≡ confirmer by
unknown-confirmer none = refl
unknown-confirmer (some by) = ground arith

entry_of_job :
    (new_id entry_id now : ℕ) (org : Option ℕ) (by : Option String) (payload : ScanJobCreateRequest)
    (a a₁ : Assessment) (job : ScanJob) (log : List ConsentAuditEntry)
    → a₁.id ≡ a.id
    → job.id ≡ new_id
    → job.agent_type ≡ payload.agent_type
    → Audited new_id entry_id now org by payload a true
        (ok (authorized (or_unknown by) now job))
        log
        (log ++ consent_entry entry_id now org a₁ job (or_unknown by) ∷ [])
entry_of_job new_id entry_id now none by payload a a₁ job log h hi ht =
    ground (arith, unknown-confirmer by)
entry_of_job new_id entry_id now (some o) by payload a a₁ job log h hi ht =
    ground (arith, unknown-confirmer by)

authorize_then_store :
    (b : Bool) (new_id entry_id now : ℕ) (org : Option ℕ) (by : Option String)
    (payload : ScanJobCreateRequest) (a a₁ : Assessment) (job : ScanJob) (f : ScanJob → Assessment)
    (s : System)
    → a₁.id ≡ a.id
    → job.id ≡ new_id
    → job.agent_type ≡ payload.agent_type
    → let (r, s') = (authorize b entry_id now org by a₁ job >>= λ j. store (f j) >> pure j) s in
      Audited new_id entry_id now org by payload a b r s.audit_log s'.audit_log
unfolding record_entry
authorize_then_store false new_id entry_id now org by payload a a₁ job f s h hi ht = refl
authorize_then_store true new_id entry_id now org by payload a a₁ job f s h hi ht =
    elim (Bool-cases (any (λ r. r.id == entry_id) s.audit_log)) [
      | inl e ↦ rw (e, if◌then◌else◌) refl
      | inr e ↦
          rw (e, if◌then◌else◌)
            (entry_of_job new_id entry_id now org by payload a a₁ job s.audit_log h hi ht)
    ]

-- For an assessment that can be read, a job that create_scan_job makes with consent has the new
-- id, carries who confirmed and when, and has exactly one new entry in the audit log, which names
-- the organization (the nil one without one), the assessment, the job, the requested agent, the
-- job's target (or an empty text) and who confirmed (or "unknown"); a job without consent and a
-- call that raises write no entry.
pub create_scan_job-audit :
    (new_id entry_id now id : ℕ) (payload : ScanJobCreateRequest) (org : Option ℕ)
    (by : Option String) (s : System) (a : Assessment)
    → get id org s.assessments ≡ ok a
    → let (r, s') = create_scan_job new_id entry_id now id payload org by s in
      Audited new_id entry_id now org by payload a payload.target_authorization_confirmed r
        s.audit_log s'.audit_log
unfolding create_scan_job
create_scan_job-audit new_id entry_id now id payload org by s a g =
    let confirmed = payload.target_authorization_confirmed in
    let P : Result ScanJob × System → Type 0 =
      λ p. Audited new_id entry_id now org by payload a confirmed p.0 s.audit_log p.1.audit_log in
    steady_then P (enforce_if_given org) _ s (enforce_steady org s) (λ e. refl)
      (λ _ _.
        steady_then P (load id org) _ s refl (λ e. refl)
          (λ b e.
            let same : ok b ≡ ok a = sym e ∙ g in
            steady_then P (start_if_idle now b) _ s (start_steady now b s) (λ e. refl)
              (λ a₁ e₁.
                steady_then P (scan_target payload.repository_id payload.target a₁) _ s
                  (target_steady payload.repository_id payload.target a₁ s) (λ e. refl)
                  (λ target _.
                    authorize_then_store confirmed new_id entry_id now org by payload a a₁ _ _ s
                      (start_same now b a₁ s e₁ ∙ ground arith) refl refl))))
