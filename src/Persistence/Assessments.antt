-- ===== src/Persistence/Assessments.antt =====
-- sqlite_assessment_repository.py: the table `assessments`. The payload column holds the JSON text
-- of an `AssessmentResponse`; the model holds the value that pydantic writes there and reads back.
pub mod Isolation
pub mod Paging
pub mod Own
use security_review_ai.Prelude.{
  ℕ, ◌==◌, Bool, true, false, ◌&&◌, ◌||◌, not, Option, none, some, List, [], ◌∷◌, find_first,
  keep_if, count_if, take, drop, map, if◌then◌else◌, ltb,
}
use security_review_ai.Prelude.Sort.{sort}
use security_review_ai.Exec.{Result, ok, err, key_error}
use security_review_ai.Domain.Assessment.{
  Assessment, AssessmentResponse, to_response, from_response,
}

pub record AssessmentRow : Type 0 where
  pub id : ℕ
  pub organization_id : ℕ
  pub payload : AssessmentResponse
  pub created_at : ℕ
  pub updated_at : ℕ

abbrev pub has_id : ℕ → AssessmentRow → Bool
has_id k r = r.id == k

abbrev pub to_row : Assessment → AssessmentRow
to_row a = record {
  id = a.id;
  organization_id = a.organization_id;
  payload = to_response a;
  created_at = a.created_at;
  updated_at = a.updated_at;
}

-- INSERT … ON CONFLICT (id) DO UPDATE SET payload, updated_at
unfoldable pub save : Assessment → List AssessmentRow → List AssessmentRow
save a [] = to_row a ∷ []
save a (r ∷ t) =
    let rest = save a t in
    if has_id a.id r
    then (record r { payload = to_response a; updated_at = a.updated_at }) ∷ t
    else r ∷ rest

-- `organization_id is not None and assessment.organization_id != organization_id`
abbrev pub is_foreign : Option ℕ → Assessment → Bool
is_foreign none a = false
is_foreign (some o) a = not (a.organization_id == o)

abbrev visible : Option ℕ → Assessment → Result Assessment
visible org a = if is_foreign org a then err key_error else ok a

abbrev from_row : Option ℕ → Option AssessmentRow → Result Assessment
from_row org none = err key_error
from_row org (some r) = visible org (from_response r.payload)

unfoldable pub get : ℕ → Option ℕ → List AssessmentRow → Result Assessment
get k org t = from_row org (find_first (has_id k) t)

abbrev pub in_organization : Option ℕ → AssessmentRow → Bool
in_organization none r = true
in_organization (some o) r = r.organization_id == o

-- created_at DESC, id DESC
abbrev pub newer_row : AssessmentRow → AssessmentRow → Bool
newer_row a b =
    ltb b.created_at a.created_at || (b.created_at == a.created_at && not (ltb a.id b.id))

-- LIMIT :limit OFFSET :offset, added to the query only if a limit is given
abbrev pub page {ℓ} : {A : Type ℓ} → Option ℕ → ℕ → List A → List A
page none offset t = t
page (some limit) offset t = take limit (drop offset t)

abbrev pub row_assessment : AssessmentRow → Assessment
row_assessment r = from_response r.payload

unfoldable pub list_assessments : Option ℕ → Option ℕ → ℕ → List AssessmentRow → List Assessment
list_assessments org limit offset t =
    map row_assessment (page limit offset (sort newer_row (keep_if (in_organization org) t)))

unfoldable pub count : Option ℕ → List AssessmentRow → ℕ
count org t = count_if (in_organization org) t

abbrev without : ℕ → List AssessmentRow → Assessment → Result (Assessment × List AssessmentRow)
without k t a = ok (a, keep_if (λ r. not (has_id k r)) t)

abbrev and_delete :
    ℕ → List AssessmentRow → Result Assessment → Result (Assessment × List AssessmentRow)
and_delete k t (ok a) = without k t a
and_delete k t (err e) = err e

-- the assessment that was deleted, and the table without it
unfoldable pub delete : ℕ → Option ℕ → List AssessmentRow → Result (Assessment × List AssessmentRow)
delete k org t = and_delete k t (get k org t)
