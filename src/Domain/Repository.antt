-- ===== src/Domain/Repository.antt =====
-- backend/src/security_review/domain/repository: a repository under analysis and its transitions.
pub mod Analysis
use security_review_ai.Prelude.{
  ℕ, String, Bool, true, false, List, [], ◌∷◌, ◌++◌, any, if◌then◌else◌,
}
use security_review_ai.Exec.{Result, ok, err, invalid_repository_state}

pub data RepositoryStatus : Type 0 where
  created ready analyzing completed failed : RepositoryStatus

pub data Language : Type 0 where
  java python javascript typescript go rust csharp kotlin : Language

pub data BuildSystem : Type 0 where
  maven gradle npm yarn pnpm pip poetry go cargo unknown : BuildSystem

pub record Repository : Type 0 where
  pub id : ℕ
  pub name : String
  pub url : String
  pub default_branch : String
  pub commit_hash : String
  pub languages : List Language
  pub build_system : BuildSystem
  pub status : RepositoryStatus
  pub created_at : ℕ
  pub updated_at : ℕ

abbrev pub language_eq : Language → Language → Bool
language_eq Language.java Language.java = true
language_eq Language.python Language.python = true
language_eq Language.javascript Language.javascript = true
language_eq Language.typescript Language.typescript = true
language_eq Language.go Language.go = true
language_eq Language.rust Language.rust = true
language_eq Language.csharp Language.csharp = true
language_eq Language.kotlin Language.kotlin = true
language_eq _ _ = false

abbrev become : RepositoryStatus → ℕ → Repository → Repository
become s now r = record r { status = s; updated_at = now }

abbrev ready_from : RepositoryStatus → ℕ → Repository → Result Repository
ready_from RepositoryStatus.created now r = ok (become RepositoryStatus.ready now r)
ready_from _ now r = err invalid_repository_state

abbrev analyze_from : RepositoryStatus → ℕ → Repository → Result Repository
analyze_from RepositoryStatus.ready now r = ok (become RepositoryStatus.analyzing now r)
analyze_from _ now r = err invalid_repository_state

abbrev complete_from : RepositoryStatus → ℕ → Repository → Result Repository
complete_from RepositoryStatus.analyzing now r = ok (become RepositoryStatus.completed now r)
complete_from _ now r = err invalid_repository_state

unfoldable pub mark_ready : ℕ → Repository → Result Repository
mark_ready now r = ready_from r.status now r

unfoldable pub start_analysis : ℕ → Repository → Result Repository
start_analysis now r = analyze_from r.status now r

unfoldable pub complete : ℕ → Repository → Result Repository
complete now r = complete_from r.status now r

unfoldable pub fail : ℕ → Repository → Repository
fail now r = become RepositoryStatus.failed now r

abbrev pub has_language : Language → Repository → Bool
has_language l r = any (language_eq l) r.languages

unfoldable pub add_language : Language → ℕ → Repository → Repository
add_language l now r =
    if has_language l r then r else record r { languages = r.languages ++ l ∷ []; updated_at = now }

unfoldable pub is_java : Repository → Bool
is_java r = has_language Language.java r

unfoldable pub is_python : Repository → Bool
is_python r = has_language Language.python r
