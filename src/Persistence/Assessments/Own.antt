-- ===== src/Persistence/Assessments/Own.antt =====
-- What the operations of one organization do to the table of assessments.
use security_review_ai.Prelude.{
  ℕ, ◌≡◌, refl, ◌∙◌, not, none, some, List, [], ◌∷◌, arith, find_first, keep_if, count_if, All,
  All-keep_if, Bool-cases, inl, inr,
}
use security_review_ai.Prelude.Unique.{Unique, Unique-keep_if}
use security_review_ai.Exec.{Result-cases, ok}
use security_review_ai.Domain.Assessment.{Assessment}
use security_review_ai.Persistence.Assessments.{AssessmentRow, has_id, save, get, delete}
use security_review_ai.Persistence.Assessments.Isolation.{
  IsTable, IsAgreed, same_id, outside, save_isolated, delete_isolated, save-new, save-IsTable,
  find_own, get_own, own_id,
}

-- nothing, a write to an assessment that the organization can read, a new assessment, or the removal
-- of one that it can read
pub data Own (o : ℕ) : List AssessmentRow → List AssessmentRow → Type 0 where
  untouched : (t : List AssessmentRow) → Own o t t
  written :
      (k : ℕ) (a b : Assessment) (t : List AssessmentRow)
      → get k (some o) t ≡ ok a
      → b.id ≡ a.id
      → b.organization_id ≡ a.organization_id
      → Own o t (save b t)
  added :
      (b : Assessment) (t : List AssessmentRow)
      → find_first (has_id b.id) t ≡ none
      → b.organization_id ≡ o
      → Own o t (save b t)
  removed :
      (k : ℕ) (a : Assessment) (t t' : List AssessmentRow)
      → delete k (some o) t ≡ ok (a, t')
      → Own o t t'

pub Own-outside :
    (o : ℕ) (t t' : List AssessmentRow) → IsTable t → Own o t t' → outside o t' ≡ outside o t
Own-outside o t t' h (untouched _) = refl
Own-outside o t t' h (written k a b _ e f f') = save_isolated k o a b t h.1 e f
Own-outside o t t' h (added b _ e f) = save-new o b t e f
Own-outside o t t' h (removed k a _ _ e) = delete_isolated k o a t t' h e

-- no row has the id
rows_of_none :
    (k o : ℕ) (t : List AssessmentRow)
    → find_first (has_id k) t ≡ none
    → All (λ q. q.id ≡ k → q.organization_id ≡ o) t
rows_of_none k o [] e = tt
rows_of_none k o (q ∷ t) e = (λ same. absurd (ground arith), rows_of_none k o t (ground arith))

rows_behind :
    (k o : ℕ) (q : AssessmentRow) (t : List AssessmentRow)
    → count_if (same_id q) t ≡ 0
    → q.id ≡ k
    → find_first (has_id k) t ≡ none
rows_behind k o q [] c e = refl
rows_behind k o q (x ∷ t) c e = ground (arith, rows_behind k o q t)

-- the only row of the id is the one that is found
rows_of_found :
    (k o : ℕ) (r : AssessmentRow) (t : List AssessmentRow)
    → Unique same_id t
    → find_first (has_id k) t ≡ some r
    → r.organization_id ≡ o
    → All (λ q. q.id ≡ k → q.organization_id ≡ o) t
rows_of_found k o r [] u f e = tt
rows_of_found k o r (q ∷ t) (uq, u) f e = elim (Bool-cases (has_id k q)) [
  | inl mine ↦ (λ same. ground arith, rows_of_none k o t (rows_behind k o q t uq (ground arith)))
  | inr other ↦ (λ same. absurd (ground arith), rows_of_found k o r t u (ground arith) e)
]

pub Own-IsTable : (o : ℕ) (t t' : List AssessmentRow) → IsTable t → Own o t t' → IsTable t'
unfolding delete
Own-IsTable o t t' h (untouched _) = h
Own-IsTable o t t' h (written k a b _ e f f') =
    let (r, found, x, y) = find_own k o t a h.1 e in
    let id : b.id ≡ k = f ∙ own_id k o t a h.1 e in
    let org : b.organization_id ≡ o = f' ∙ get_own k o t a e in
    save-IsTable b t h (rw (id, org) (rows_of_found k o r t h.0 found x))
Own-IsTable o t t' h (added b _ e f) = save-IsTable b t h (rows_of_none b.id b.organization_id t e)
Own-IsTable o t t' h (removed k a _ _ e) = elim (Result-cases (get k (some o) t)) [
  | inl (b, g) ↦
      let same : t' ≡ keep_if (λ q. not (has_id k q)) t = ground arith in
      rw same (
        Unique-keep_if same_id (λ q. not (has_id k q)) t h.0,
        All-keep_if IsAgreed (λ q. not (has_id k q)) t h.1,
      )
  | inr (x, g) ↦ absurd (ground arith)
]
