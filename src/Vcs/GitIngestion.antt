-- ===== src/Vcs/GitIngestion.antt =====
-- git_repository_ingestion_service.py. The git processes and the file system are parameters.
pub mod Safety
use security_review_ai.Prelude.{
  ℕ, String, ◌||◌, not, Option, none, some, is_nonempty, strip, starts_with, if◌then◌else◌,
}
use security_review_ai.Exec.{Result, ok, err, unsafe_outbound_url}
use security_review_ai.Security.OutboundUrl.{Network, validate_public_http_url}

-- where a `RepositoryIngestionError` is raised; `git_failed` carries git's last output
pub data IngestionError : Type 0 where
  empty_url dashed_url unsupported_scheme unsafe_url dashed_branch timed_out : IngestionError
  git_failed : String → IngestionError

pub record IngestionResult : Type 0 where
  pub local_path : String
  pub commit_hash : String

pub data Ingestion (A : Type 0) : Type 0 where
  ingested : A → Ingestion A
  refused : IngestionError → Ingestion A
  -- an exception of another class
  crashed : Ingestion A

-- how `git clone` ends: by a timeout, well, with an exit code other than 0, or with the OSError of
-- a program that cannot be started
pub data CloneExit : Type 0 where
  clone_timeout clone_done clone_not_started : CloneExit
  clone_failed : String → CloneExit

pub record GitHost : Type 0 where
  -- the resolved path of `base_dir / str(repository_id)`
  pub dest : ℕ → String
  -- `git clone` of branch, URL, destination
  pub run_clone : String → String → String → CloneExit
  -- the output of `git rev-parse HEAD`, or `none` for a timeout or OSError
  pub rev_parse : String → Option String

abbrev from_checked : String → Result String → Ingestion String
from_checked url (ok u) = ingested url
from_checked url (err unsafe_outbound_url) = refused unsafe_url
from_checked url (err e) = crashed

unfoldable pub validate_repository_url : Network → String → Ingestion String
validate_repository_url net url =
    if not (is_nonempty url) || not (is_nonempty (strip url))
    then refused empty_url
    else if starts_with url "-"
    then refused dashed_url
    else if not (starts_with url "https://" || starts_with url "http://")
    then refused unsupported_scheme
    else from_checked url (validate_public_http_url net url)

-- branch or "main"
abbrev pub or_main : String → String
or_main b = if is_nonempty b then b else "main"

unfoldable pub validate_branch : String → Ingestion String
validate_branch branch =
    let b = strip (or_main branch) in
    if not (is_nonempty b)
    then ingested "main"
    else if starts_with b "-"
    then refused dashed_branch
    else ingested b

abbrev commit_hash_of : Option String → String
commit_hash_of none = ""
commit_hash_of (some out) = strip out

module _ (net : Network) (git : GitHost) where
  abbrev after_clone : String → CloneExit → Ingestion IngestionResult
  after_clone path clone_timeout = refused timed_out
  after_clone path (clone_failed out) = refused (git_failed out)
  after_clone path clone_not_started = crashed
  after_clone path clone_done =
      ingested (record { local_path = path; commit_hash = commit_hash_of (git.rev_parse path) })

  abbrev with_branch : String → ℕ → Ingestion String → Ingestion IngestionResult
  with_branch url id (refused e) = refused e
  with_branch url id crashed = crashed
  with_branch url id (ingested b) = after_clone (git.dest id) (git.run_clone b url (git.dest id))

  abbrev with_url : String → ℕ → Ingestion String → Ingestion IngestionResult
  with_url branch id (refused e) = refused e
  with_url branch id crashed = crashed
  with_url branch id (ingested url) = with_branch url id (validate_branch branch)

  unfoldable pub clone : String → String → ℕ → Ingestion IngestionResult
  clone url branch id = with_url branch id (validate_repository_url net url)
