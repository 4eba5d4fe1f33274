-- ===== src/Assessments/Service.antt =====
-- The operations of `AssessmentService` on assessments and their repositories. New ids and times
-- are arguments; the calls of `datetime.now` within one step read one time.
use security_review_ai.Prelude.{
  ℕ, ◌==◌, String, Bool, Option, none, some, List, [], ◌∷◌, ◌++◌, map, find_first, remove_first,
  update_first, if◌then◌else◌, is_nonempty,
}
use security_review_ai.Exec.{
  key_error, other_exception, raise, pure, gets, lift, modify, or_raise, ◌>>=◌, ◌>>◌,
}
use security_review_ai.System.{Action, System}
use security_review_ai.Domain.Audit.{ConsentAuditEntry}
use security_review_ai.Domain.Assessment.{
  Assessment, AssessmentCreateRequest, AssessmentResponse, Finding, Repository,
  RepositoryCreateRequest, RepositoryIngestStatus, ScanJob, new_assessment, to_response,
}
use security_review_ai.Persistence.Assessments
use security_review_ai.Persistence.Assessments.{AssessmentRow, save, get, delete, count}
use security_review_ai.Persistence.AuditLog.{list_entries, default_limit}
use security_review_ai.Billing.Service.{enforce_assessment_limit}
use security_review_ai.Security.OutboundUrl.{Network}
use security_review_ai.Vcs.GitIngestion.{
  GitHost, Ingestion, ingested, refused, crashed, IngestionError, IngestionResult, clone,
}

abbrev pub load : ℕ → Option ℕ → Action Assessment
load id org = gets (λ s. get id org s.assessments) >>= lift

abbrev pub store : Assessment → Action (Unit {0})
store a = modify (λ s. record s { assessments = save a s.assessments })

abbrev pub repository_has_id : ℕ → Repository → Bool
repository_has_id k r = r.id == k

abbrev pub job_has_id : ℕ → ScanJob → Bool
job_has_id k j = j.id == k

-- `_get_repository`
abbrev pub find_repository : ℕ → Assessment → Action Repository
find_repository id a = or_raise (find_first (repository_has_id id) a.repositories) key_error

-- `_get_scan_job`
abbrev pub find_scan_job : ℕ → Assessment → Action ScanJob
find_scan_job id a = or_raise (find_first (job_has_id id) a.scan_jobs) key_error

unfoldable pub create_assessment : ℕ → ℕ → AssessmentCreateRequest → ℕ → Action AssessmentResponse
create_assessment new_id now payload org = do
  enforce_assessment_limit org
  let a = new_assessment new_id now payload.name payload.description org
  store a
  pure (to_response a)

unfoldable pub get_assessment : ℕ → Option ℕ → Action AssessmentResponse
get_assessment id org = do a ← load id org; pure (to_response a)

unfoldable pub list_assessments : Option ℕ → Option ℕ → ℕ → System → List AssessmentResponse
list_assessments org limit offset s =
    map to_response (Assessments.list_assessments org limit offset s.assessments)

unfoldable pub count_assessments : Option ℕ → System → ℕ
count_assessments org s = count org s.assessments

-- the file system: what a path resolves to, and whether something stands there
pub record Disk : Type 0 where
  pub resolve : String → String
  pub exists : String → Bool

abbrev remove_tree : String → Action (Unit {0})
remove_tree p = modify (λ s. record s { removed_clones = s.removed_clones ++ p ∷ [] })

module _ (disk : Disk) where
  abbrev cleanup_path : Option String → Action (Unit {0})
  cleanup_path none = pure tt
  cleanup_path (some p) =
      if is_nonempty p
      then (if disk.exists (disk.resolve p) then remove_tree (disk.resolve p) else pure tt)
      else pure tt

  -- `_cleanup_repository_clone`
  abbrev pub cleanup_repository_clone : Repository → Action (Unit {0})
  cleanup_repository_clone r = cleanup_path r.local_path

  unfoldable pub cleanup_all : List Repository → Action (Unit {0})
  cleanup_all [] = pure tt
  cleanup_all (r ∷ t) = cleanup_repository_clone r >> cleanup_all t

  abbrev deleted : Assessment × List AssessmentRow → Action Assessment
  deleted (a, t) = modify (λ s. record s { assessments = t }) >> pure a

  unfoldable pub delete_assessment : ℕ → Option ℕ → Action (Unit {0})
  unfolding cleanup_all
  delete_assessment id org = do
    r ← gets (λ s. delete id org s.assessments)
    p ← lift r
    a ← deleted p
    cleanup_all a.repositories

  -- the repository that was found is the first with its id, and so what `remove` takes out
  unfoldable pub delete_repository : ℕ → ℕ → ℕ → Option ℕ → Action (Unit {0})
  delete_repository now id repository_id org = do
    a ← load id org
    r ← find_repository repository_id a
    store (record a {
      repositories = remove_first (repository_has_id repository_id) a.repositories;
      updated_at = now;
    })
    cleanup_repository_clone r

abbrev pub new_repository : ℕ → ℕ → RepositoryCreateRequest → Repository
new_repository new_id now payload = record {
  id = new_id;
  name = payload.name;
  url = payload.url;
  branch = payload.branch;
  status = RepositoryIngestStatus.pending;
  local_path = none;
  commit_hash = none;
  error_message = none;
  ingested_at = now;
}

unfoldable pub ingest_repository :
    ℕ → ℕ → ℕ → RepositoryCreateRequest → Option ℕ → Action Repository
ingest_repository new_id now id payload org = do
  a ← load id org
  let r = new_repository new_id now payload
  store (record a { repositories = a.repositories ++ r ∷ []; updated_at = now })
  pure r

-- an assignment to the repository object that `_get_repository` returned
abbrev with_repository : ℕ → (Repository → Repository) → ℕ → Assessment → Assessment
with_repository id f now a = record a {
  repositories = update_first (repository_has_id id) f a.repositories;
  updated_at = now;
}

abbrev cloning : Repository → Repository
cloning r = record r { status = RepositoryIngestStatus.cloning }

abbrev raise_crash : Ingestion IngestionResult → Action (Unit {0})
raise_crash crashed = raise other_exception
raise_crash _ = pure tt

module _ (message : IngestionError → String) where
  abbrev after_ingestion : Ingestion IngestionResult → Repository → Repository
  after_ingestion (ingested x) r = record r {
    local_path = some x.local_path;
    commit_hash = some x.commit_hash;
    status = RepositoryIngestStatus.ready;
    error_message = none;
  }
  after_ingestion (refused e) r = record r {
    status = RepositoryIngestStatus.failed;
    error_message = some (message e);
  }
  after_ingestion crashed r = r

  unfoldable pub run_repository_ingestion : Network → GitHost → ℕ → ℕ → ℕ → ℕ → Action (Unit {0})
  run_repository_ingestion net git now later id repository_id = do
    a ← load id none
    r ← find_repository repository_id a
    let a₁ = with_repository repository_id cloning now a
    store a₁
    let result = clone net git r.url r.branch r.id
    store (with_repository repository_id (after_ingestion result) later a₁)
    raise_crash result

unfoldable pub list_repositories : ℕ → Option ℕ → Action (List Repository)
list_repositories id org = do a ← load id org; pure a.repositories

unfoldable pub get_repository : ℕ → ℕ → Option ℕ → Action Repository
get_repository id repository_id org = do a ← load id org; find_repository repository_id a

unfoldable pub list_findings : ℕ → Option ℕ → Action (List Finding)
list_findings id org = do a ← load id org; pure a.findings

unfoldable pub get_consent_audit_log : ℕ → System → List ConsentAuditEntry
get_consent_audit_log org s = list_entries org default_limit s.audit_log
