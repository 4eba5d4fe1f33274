-- ===== src/Domain/Repository/Analysis.antt =====
-- The analysis of a repository as a state machine, and its list of languages.
use security_review_ai.Prelude.{
  ℕ, ◌≡◌, ◌≢◌, refl, List, [], ◌∷◌, true, false, arith, any, count_if, count_if-append, ◌≤◌, inl,
  inr, Bool-cases, Bool, if◌then◌else◌, ap, ◌∙◌,
}
use mathlib.Core.Path.{subst}
use security_review_ai.Exec.{ok}
use security_review_ai.Domain.Repository.{
  Repository, RepositoryStatus, Language, language_eq, mark_ready, start_analysis, complete, fail,
  add_language, has_language,
}

-- a call of one of the methods that did not raise
pub data Step (r s : Repository) : Type 0 where
  readies : (now : ℕ) → mark_ready now r ≡ ok s → Step r s
  starts : (now : ℕ) → start_analysis now r ≡ ok s → Step r s
  completes : (now : ℕ) → complete now r ≡ ok s → Step r s
  fails : (now : ℕ) → fail now r ≡ s → Step r s
  adds : (l : Language) (now : ℕ) → add_language l now r ≡ s → Step r s

pub data Reach (r : Repository) : Repository → Type 0 where
  here : Reach r r
  next : {s t : Repository} → Reach r s → Step s t → Reach r t

-- the test of Python on two members of the enumeration
pub is_same : RepositoryStatus → RepositoryStatus → Bool
is_same RepositoryStatus.created RepositoryStatus.created = true
is_same RepositoryStatus.ready RepositoryStatus.ready = true
is_same RepositoryStatus.analyzing RepositoryStatus.analyzing = true
is_same RepositoryStatus.completed RepositoryStatus.completed = true
is_same RepositoryStatus.failed RepositoryStatus.failed = true
is_same _ _ = false

-- a status is noted where it is not the one before
noted : RepositoryStatus → List RepositoryStatus → List RepositoryStatus
noted s [] = s ∷ []
noted s (x ∷ xs) = if is_same s x then x ∷ xs else s ∷ x ∷ xs

-- the statuses that a sequence of calls goes through, the latest first, each as long as it
-- lasts counted once
pub history : {r s : Repository} → Reach r s → List RepositoryStatus
history {r} here = r.status ∷ []
history (next {s} {t} path st) = noted t.status (history path)

Step-of_failed :
    {r s : Repository}
    → Step r s
    → r.status ≡ RepositoryStatus.failed
    → s.status ≡ RepositoryStatus.failed
unfolding mark_ready start_analysis complete fail add_language
Step-of_failed (readies now e) h = ground arith
Step-of_failed (starts now e) h = ground arith
Step-of_failed (completes now e) h = ground arith
Step-of_failed (fails now e) h = ground arith
Step-of_failed (adds l now e) h = ground arith

-- A repository that has failed stays failed, whatever is called.
failed_stays :
    {r s : Repository}
    → r.status ≡ RepositoryStatus.failed
    → Reach r s
    → s.status ≡ RepositoryStatus.failed
failed_stays h here = h
failed_stays h (next r st) = Step-of_failed st (failed_stays h r)

-- no language is listed twice
abbrev pub HasDistinctLanguages : Repository → Type 0
HasDistinctLanguages r = (l : Language) → count_if (language_eq l) r.languages ≤ 1

-- the way to a status on which nothing fails
abbrev way : RepositoryStatus → List RepositoryStatus
way RepositoryStatus.created = RepositoryStatus.created ∷ []
way RepositoryStatus.ready = RepositoryStatus.ready ∷ RepositoryStatus.created ∷ []
way RepositoryStatus.analyzing =
    RepositoryStatus.analyzing ∷ RepositoryStatus.ready ∷ RepositoryStatus.created ∷ []
way RepositoryStatus.completed =
    RepositoryStatus.completed ∷ RepositoryStatus.analyzing ∷ RepositoryStatus.ready
    ∷ RepositoryStatus.created ∷ []
way RepositoryStatus.failed = []

Step-noted :
    {s t : Repository}
    → Step s t
    → t.status ≢ RepositoryStatus.failed
    → noted t.status (way s.status) ≡ way t.status
unfolding mark_ready start_analysis complete fail add_language noted is_same
Step-noted (readies now e) h = ground arith
Step-noted (starts now e) h = ground arith
Step-noted (completes now e) h = ground arith
Step-noted (fails now e) h = ground arith
Step-noted (adds l now e) h = ground arith

history-way :
    {r t : Repository} (path : Reach r t)
    → r.status ≡ RepositoryStatus.created
    → t.status ≢ RepositoryStatus.failed
    → history path ≡ way t.status
unfolding history
history-way here c h = rw c refl
history-way (next {s} {t} path st) c h =
    ap (noted t.status) (history-way path c (λ e. h (Step-of_failed st e))) ∙ Step-noted st h

-- Whatever calls are made, if they take a repository that was just created to one of which the
-- analysis is completed, the statuses on the way are, in order, created, ready, analyzing and
-- completed, none of them left and entered again.
pub completed_in_order :
    {r t : Repository} (path : Reach r t)
    → r.status ≡ RepositoryStatus.created
    → t.status ≡ RepositoryStatus.completed
    → history path
      ≡ RepositoryStatus.completed ∷ RepositoryStatus.analyzing ∷ RepositoryStatus.ready
        ∷ RepositoryStatus.created ∷ []
completed_in_order path h e = history-way path h (λ x. absurd (cc)) ∙ rw e refl

language_eq→eq : (l m : Language) → language_eq l m ≡ true → l ≡ m
language_eq→eq l m h = ground arith

count-of_absent :
    (l : Language) (xs : List Language)
    → any (language_eq l) xs ≡ false
    → count_if (language_eq l) xs ≡ 0
count-of_absent l [] h = refl
count-of_absent l (x ∷ xs) h = ground (arith, count-of_absent l xs)

add_language-HasDistinctLanguages :
    (l : Language) (now : ℕ) (r : Repository)
    → HasDistinctLanguages r
    → HasDistinctLanguages (add_language l now r)
unfolding add_language
add_language-HasDistinctLanguages l now r h k = elim (Bool-cases (has_language l r)) [
  | inl there ↦ rw there (h k)
  | inr absent ↦ rw absent (
      rw (count_if-append (language_eq k) r.languages (l ∷ []))
        (ground (arith, h k, language_eq→eq k l, count-of_absent l r.languages absent)))
]

Step-HasDistinctLanguages :
    {r s : Repository} → Step r s → HasDistinctLanguages r → HasDistinctLanguages s
unfolding mark_ready start_analysis complete fail
Step-HasDistinctLanguages (readies now e) h k = ground (arith, h k)
Step-HasDistinctLanguages (starts now e) h k = ground (arith, h k)
Step-HasDistinctLanguages (completes now e) h k = ground (arith, h k)
Step-HasDistinctLanguages (fails now e) h k = ground (arith, h k)
Step-HasDistinctLanguages {r} (adds l now e) h k =
    subst HasDistinctLanguages e (add_language-HasDistinctLanguages l now r h) k

-- A repository that lists no language twice never does, whatever is called.
Reach-HasDistinctLanguages :
    {r s : Repository} → HasDistinctLanguages r → Reach r s → HasDistinctLanguages s
Reach-HasDistinctLanguages h here = h
Reach-HasDistinctLanguages h (next r st) =
    Step-HasDistinctLanguages st (Reach-HasDistinctLanguages h r)
