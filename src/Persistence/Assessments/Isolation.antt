-- ===== src/Persistence/Assessments/Isolation.antt =====
-- What an operation of one organization leaves of the others' rows.
use mathlib.Core.Path.{subst}
use security_review_ai.Prelude.{
  ℕ, ◌==◌, ◌≡◌, refl, sym, Bool, true, false, not, none, some, List, [], ◌∷◌, arith, find_first,
  keep_if, if◌then◌else◌, All, Bool-cases, Option, Option-cases, inl, inr, ==_iff, count_if,
  find_first-passes,
}
use security_review_ai.Prelude.Unique.{Unique}
use security_review_ai.Exec.{Result-cases, ok}
use security_review_ai.Domain.Assessment.{Assessment, from_response}
use security_review_ai.Persistence.Assessments.{AssessmentRow, has_id, save, get, delete}

-- the columns of a row agree with its payload
abbrev pub IsAgreed : AssessmentRow → Type 0
IsAgreed r = (r.payload.id ≡ r.id) × (r.payload.organization_id ≡ r.organization_id)

abbrev pub same_id : AssessmentRow → AssessmentRow → Bool
same_id x y = y.id == x.id

-- a table of one row for each id, all of them agreed
abbrev pub IsTable : List AssessmentRow → Type 0
IsTable t = Unique same_id t × All IsAgreed t

unfoldable pub outside : ℕ → List AssessmentRow → List AssessmentRow
outside o t = keep_if (λ r. not (r.organization_id == o)) t

-- An assessment that an organization reads is its own.
pub get_own :
    (k o : ℕ) (t : List AssessmentRow) (a : Assessment)
    → get k (some o) t ≡ ok a
    → a.organization_id ≡ o
unfolding get
get_own k o t a h = elim (Option-cases (find_first (has_id k) t)) [
  | inl e ↦ absurd (ground arith)
  | inr (r, e) ↦ ground arith
]

pub find_own :
    (k o : ℕ) (t : List AssessmentRow) (a : Assessment)
    → All IsAgreed t
    → get k (some o) t ≡ ok a
    → (r : AssessmentRow) × (find_first (has_id k) t ≡ some r)
      × (r.organization_id ≡ o)
      × (from_response r.payload ≡ a)
unfolding get
find_own k o [] a g h = absurd (cc)
find_own k o (r ∷ t) a g h = elim (Bool-cases (has_id k r)) [
  | inl e ↦ (r, ground arith, ground arith, ground arith)
  | inr e ↦ let (q, f, x, y) = find_own k o t a g.1 (ground arith) in (q, ground arith, x, y)
]

save-found :
    (o : ℕ) (b : Assessment) (r : AssessmentRow) (t : List AssessmentRow)
    → find_first (has_id b.id) t ≡ some r
    → r.organization_id ≡ o
    → outside o (save b t) ≡ outside o t
unfolding save outside
save-found o b r [] f x = absurd (cc)
save-found o b r (q ∷ t) f x = ground (arith, save-found o b r t)

pub save-new :
    (o : ℕ) (b : Assessment) (t : List AssessmentRow)
    → find_first (has_id b.id) t ≡ none
    → b.organization_id ≡ o
    → outside o (save b t) ≡ outside o t
unfolding save outside
save-new o b [] f x = ground arith
save-new o b (q ∷ t) f x = ground (arith, save-new o b t)

keep_none :
    (p : AssessmentRow → Bool) (t : List AssessmentRow)
    → count_if p t ≡ 0
    → keep_if (λ r. not (p r)) t ≡ t
keep_none p [] h = refl
keep_none p (q ∷ t) h = ground (arith, keep_none p t)

only_one :
    (q : AssessmentRow) (k : ℕ) (t : List AssessmentRow)
    → count_if (same_id q) t ≡ 0
    → has_id k q ≡ true
    → keep_if (λ r. not (has_id k r)) t ≡ t
only_one q k t u e = rw (sym ((==_iff q.id k).0 e)) (keep_none (same_id q) t u)

agreed :
    (k : ℕ) (t : List AssessmentRow) (r : AssessmentRow)
    → All IsAgreed t
    → find_first (has_id k) t ≡ some r
    → IsAgreed r
agreed k [] r g f = absurd (cc)
agreed k (q ∷ t) r g f = elim (Bool-cases (has_id k q)) [
  | inl e ↦ let same : q ≡ r = ground arith in subst IsAgreed same g.0
  | inr e ↦ agreed k t r g.1 (ground arith)
]

count-save :
    (q : AssessmentRow) (b : Assessment) (t : List AssessmentRow)
    → has_id b.id q ≡ false
    → count_if (same_id q) t ≡ 0
    → count_if (same_id q) (save b t) ≡ 0
unfolding save
count-save q b [] e h = ground arith
count-save q b (r ∷ t) e h = ground (arith, count-save q b t)

save-Unique :
    (b : Assessment) (t : List AssessmentRow) → Unique same_id t → Unique same_id (save b t)
unfolding save
save-Unique b [] u = (refl, tt)
save-Unique b (q ∷ t) (uq, u) = elim (Bool-cases (has_id b.id q)) [
  | inl e ↦ rw (e, if◌then◌else◌) (uq, u)
  | inr e ↦ rw (e, if◌then◌else◌) (count-save q b t e uq, save-Unique b t u)
]

save-IsAgreed :
    (b : Assessment) (t : List AssessmentRow)
    → All IsAgreed t
    → All (λ r. r.id ≡ b.id → r.organization_id ≡ b.organization_id) t
    → All IsAgreed (save b t)
unfolding save
save-IsAgreed b [] g h = ((refl, refl), tt)
save-IsAgreed b (q ∷ t) g h = elim (Bool-cases (has_id b.id q)) [
  | inl e ↦
      let same = (==_iff q.id b.id).0 e in rw (e, if◌then◌else◌) ((sym same, sym (h.0 same)), g.1)
  | inr e ↦ rw (e, if◌then◌else◌) (g.0, save-IsAgreed b t g.1 h.1)
]

delete-found :
    (o k : ℕ) (r : AssessmentRow) (t : List AssessmentRow)
    → Unique same_id t
    → find_first (has_id k) t ≡ some r
    → r.organization_id ≡ o
    → outside o (keep_if (λ q. not (has_id k q)) t) ≡ outside o t
unfolding outside
delete-found o k r [] u f x = absurd (cc)
delete-found o k r (q ∷ t) (uq, u) f x = elim (Bool-cases (has_id k q)) [
  | inl e ↦ rw (e, if◌then◌else◌, not) (rw (only_one q k t uq e) (ground arith))
  | inr e ↦ ground (arith, delete-found o k r t u)
]

-- A write to an assessment that an organization can read leaves every row of the other
-- organizations as it is, where the rows' columns agree with their payloads.
pub save_isolated :
    (k o : ℕ) (a b : Assessment) (t : List AssessmentRow)
    → All IsAgreed t
    → get k (some o) t ≡ ok a
    → b.id ≡ a.id
    → outside o (save b t) ≡ outside o t
save_isolated k o a b t g h e =
    let (r, f, x, y) = find_own k o t a g h in
    let same : b.id ≡ k = ground (arith, find_first-passes (has_id k) t r f, agreed k t r g f) in
    save-found o b r t (rw same f) x

pub delete_isolated :
    (k o : ℕ) (a : Assessment) (t t' : List AssessmentRow)
    → IsTable t
    → delete k (some o) t ≡ ok (a, t')
    → outside o t' ≡ outside o t
unfolding delete
delete_isolated k o a t t' (u, g) h = elim (Result-cases (get k (some o) t)) [
  | inl (b, e) ↦
      let (r, f, x, y) = find_own k o t b g e in
      let same : t' ≡ keep_if (λ q. not (has_id k q)) t = ground arith in
      rw same (delete-found o k r t u f x)
  | inr (x, e) ↦ absurd (ground arith)
]

-- the write to an assessment keeps the table one
pub save-IsTable :
    (b : Assessment) (t : List AssessmentRow)
    → IsTable t
    → All (λ r. r.id ≡ b.id → r.organization_id ≡ b.organization_id) t
    → IsTable (save b t)
save-IsTable b t (u, g) h = (save-Unique b t u, save-IsAgreed b t g h)

id_of_found :
    (k : ℕ) (org : Option ℕ) (t : List AssessmentRow) (a : Assessment)
    → All IsAgreed t
    → get k org t ≡ ok a
    → a.id ≡ k
unfolding get
id_of_found k org t a g h = elim (Option-cases (find_first (has_id k) t)) [
  | inl e ↦ absurd (ground arith)
  | inr (r, e) ↦ ground (arith, find_first-passes (has_id k) t r e, agreed k t r g e)
]

pub get_id :
    (k : ℕ) (t : List AssessmentRow) (a : Assessment)
    → All IsAgreed t
    → get k none t ≡ ok a
    → a.id ≡ k
get_id k t a g h = id_of_found k none t a g h

pub own_id :
    (k o : ℕ) (t : List AssessmentRow) (a : Assessment)
    → All IsAgreed t
    → get k (some o) t ≡ ok a
    → a.id ≡ k
own_id k o t a g h = id_of_found k (some o) t a g h
