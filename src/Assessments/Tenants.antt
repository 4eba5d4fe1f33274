-- ===== src/Assessments/Tenants.antt =====
-- Organizations do not touch each other's assessments.
use security_review_ai.Prelude.{
  ℕ, ap, ◌≡◌, refl, ◌∙◌, sym, String, Option, none, some, List, [], ◌∷◌, arith, find_first, keep_if,
  ◌==◌, ◌≢◌,
}
use security_review_ai.System.{System}
use security_review_ai.Domain.Assessment.{
  AssessmentCreateRequest, RepositoryCreateRequest, ScanJobCreateRequest,
}
use security_review_ai.Persistence.Assessments.{AssessmentRow, has_id}
use security_review_ai.Persistence.Assessments.Isolation.{IsTable, outside}
use security_review_ai.Persistence.Assessments.Own.{Own, Own-outside, Own-IsTable}
use security_review_ai.Assessments.Service.{
  Disk, create_assessment, delete_assessment, delete_repository, ingest_repository,
}
use security_review_ai.Assessments.Scans.{create_scan_job}
use security_review_ai.Assessments.Isolation.{
  ingest_Own, delete_repository-Own, delete_assessment-Own, create_assessment-Own,
  create_scan_job-Own,
}

-- the calls that an organization makes, with the state before and after; whatever they answer
pub data Call (o : ℕ) : System → System → Type 0 where
  creates :
      (new_id now : ℕ) (payload : AssessmentCreateRequest) (s : System)
      → find_first (has_id new_id) s.assessments ≡ none
      → Call o s (create_assessment new_id now payload o s).1
  deletes : (disk : Disk) (id : ℕ) (s : System) → Call o s (delete_assessment disk id (some o) s).1
  deletes_repository :
      (disk : Disk) (now id repository_id : ℕ) (s : System)
      → Call o s (delete_repository disk now id repository_id (some o) s).1
  ingests :
      (new_id now id : ℕ) (payload : RepositoryCreateRequest) (s : System)
      → Call o s (ingest_repository new_id now id payload (some o) s).1
  scans :
      (new_id entry_id now id : ℕ) (payload : ScanJobCreateRequest) (by : Option String)
      (s : System)
      → Call o s (create_scan_job new_id entry_id now id payload (some o) by s).1

Call-Own : (o : ℕ) (s s' : System) → Call o s s' → Own o s.assessments s'.assessments
Call-Own o s s' (creates new_id now payload _ new) =
    create_assessment-Own new_id now o payload s new
Call-Own o s s' (deletes disk id _) = delete_assessment-Own disk id o s
Call-Own o s s' (deletes_repository disk now id repository_id _) =
    delete_repository-Own disk now id repository_id o s
Call-Own o s s' (ingests new_id now id payload _) = ingest_Own new_id now id payload o s
Call-Own o s s' (scans new_id entry_id now id payload by _) =
    create_scan_job-Own new_id entry_id now id o payload by s

-- any sequence of calls of organizations other than one
pub data Others (p : ℕ) (s : System) : System → Type 0 where
  here : Others p s s
  next : {t u : System} (o : ℕ) → Others p s t → o ≢ p → Call o t u → Others p s u

-- the rows of an organization
abbrev pub rows_of : ℕ → List AssessmentRow → List AssessmentRow
rows_of p t = keep_if (λ r. r.organization_id == p) t

rows_of-outside : (p o : ℕ) (t : List AssessmentRow) → o ≢ p → rows_of p (outside o t) ≡ rows_of p t
unfolding outside
rows_of-outside p o [] h = refl
rows_of-outside p o (r ∷ t) h = ground (arith, rows_of-outside p o t h)

-- Whatever sequence of calls other organizations make, whichever ids they name and whether the
-- calls succeed or raise: the rows of an organization stay as they are, none changed, added or
-- removed. This is from a table with one row for each id whose columns agree with its payload,
-- which it stays, where new assessments get new ids. The calls are create_assessment,
-- delete_assessment, delete_repository, ingest_repository and create_scan_job.
pub Others-isolated :
    (p : ℕ) {s s' : System}
    → IsTable s.assessments
    → Others p s s'
    → IsTable s'.assessments × (rows_of p s'.assessments ≡ rows_of p s.assessments)
Others-isolated p h here = (h, refl)
Others-isolated p {s} h (next {t} {u} o path other call) =
    let (table, same) = Others-isolated p h path in
    let own = Call-Own o t u call in
    (
      Own-IsTable o t.assessments u.assessments table own,
      sym (rows_of-outside p o u.assessments other)
          ∙ ap (rows_of p) (Own-outside o t.assessments u.assessments table own)
          ∙ rows_of-outside p o t.assessments other
          ∙ same,
    )
