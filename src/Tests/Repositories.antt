-- ===== src/Tests/Repositories.antt =====
-- A repository from its creation to the end of its analysis.
use security_review_ai.Prelude.{ℕ, ◌≡◌, refl, [], ◌∷◌, arith}
use security_review_ai.Domain.Repository.{
  BuildSystem, Repository, RepositoryStatus, Language, mark_ready, start_analysis, complete, fail,
  add_language,
}
use security_review_ai.Domain.Repository.Analysis.{
  Reach, here, next, readies, starts, completes, fails, adds, history, HasDistinctLanguages,
  completed_in_order,
}

abbrev cloned : RepositoryStatus → ℕ → Repository
cloned status now = record {
  id = 1;
  name = "app";
  url = "https://example.org/app.git";
  default_branch = "main";
  commit_hash = "abc";
  languages = [];
  build_system = BuildSystem.unknown;
  status = status;
  created_at = 1;
  updated_at = now;
}

analyzed : Reach (cloned RepositoryStatus.created 1) (cloned RepositoryStatus.completed 4)
unfolding mark_ready start_analysis complete
analyzed = next (next (next here (readies 2 refl)) (starts 3 refl)) (completes 4 refl)

completed_in_order_example :
    history analyzed
    ≡ RepositoryStatus.completed ∷ RepositoryStatus.analyzing ∷ RepositoryStatus.ready
      ∷ RepositoryStatus.created ∷ []
completed_in_order_example = completed_in_order analyzed refl refl

failed_twice : Reach (cloned RepositoryStatus.failed 1) (cloned RepositoryStatus.failed 2)
unfolding fail
failed_twice = next here (fails 2 refl)

no_languages : HasDistinctLanguages (cloned RepositoryStatus.created 1)
no_languages l = omega arith

python_twice : Reach (cloned RepositoryStatus.created 1) (
    add_language Language.python 3
      (add_language Language.python 2 (cloned RepositoryStatus.created 1)))
python_twice = next (next here (adds Language.python 2 refl)) (adds Language.python 3 refl)
