-- ===== src/Persistence/Assessments/Paging.antt =====
-- The listing of an organization's assessments: its order, its size, and its pages.
use security_review_ai.Prelude.{
  ℕ, ◌+◌, ◌≡◌, ◌∙◌, refl, ap, Option, none, some, List, [], ◌∷◌, ◌++◌, true, false, arith, map,
  length, length-keep_if, take_add, drop_add, take, drop, keep_if,
}
use security_review_ai.Prelude.Sort.{sort, IsSorted, sort-IsSorted, length-sort}
use security_review_ai.Persistence.Assessments.{
  AssessmentRow, newer_row, in_organization, row_assessment, list_assessments, count,
}

length-map {ℓ κ} :
    {A : Type ℓ} {B : Type κ} (f : A → B) (xs : List A) → length (map f xs) ≡ length xs
length-map f [] = refl
length-map f (x ∷ xs) = ap (λ (n : ℕ). ℕ.suc n) (length-map f xs)

map-append {ℓ κ} :
    {A : Type ℓ} {B : Type κ} (f : A → B) (xs ys : List A) → map f (xs ++ ys) ≡ map f xs ++ map f ys
map-append f [] ys = refl
map-append f (x ∷ xs) ys = ap (λ t. f x ∷ t) (map-append f xs ys)

newer_row_total : (a b : AssessmentRow) → newer_row a b ≡ false → newer_row b a ≡ true
newer_row_total a b h = ground arith

newer_row_trans :
    (a b c : AssessmentRow) → newer_row a b ≡ true → newer_row b c ≡ true → newer_row a c ≡ true
newer_row_trans a b c h k = ground arith

-- The rows behind a listing stand newest first, the greater id first among equal times.
rows-IsSorted :
    (org : Option ℕ) (t : List AssessmentRow)
    → IsSorted newer_row (sort newer_row (keep_if (in_organization org) t))
rows-IsSorted org t =
    sort-IsSorted newer_row newer_row_total newer_row_trans (keep_if (in_organization org) t)

-- The number that the X-Total-Count header shows is the length of the unpaged listing.
length-list_assessments :
    (org : Option ℕ) (offset : ℕ) (t : List AssessmentRow)
    → length (list_assessments org none offset t) ≡ count org t
unfolding list_assessments count
length-list_assessments org offset t =
    length-map row_assessment (sort newer_row (keep_if (in_organization org) t))
    ∙ length-sort newer_row (keep_if (in_organization org) t)
    ∙ length-keep_if (in_organization org) t

page_rows :
    (m n offset : ℕ) (t : List AssessmentRow)
    → take (m + n) (drop offset t) ≡ take m (drop offset t) ++ take n (drop (offset + m) t)
page_rows m n offset t = rw (take_add m n (drop offset t), drop_add offset m t)

-- A page of `m` assessments at an offset, followed by the page of `n` that starts where it ends,
-- is the page of `m + n`: nothing is skipped or shown twice.
list_assessments_pages :
    (org : Option ℕ) (m n offset : ℕ) (t : List AssessmentRow)
    → list_assessments org (some (m + n)) offset t
      ≡ list_assessments org (some m) offset t ++ list_assessments org (some n) (offset + m) t
unfolding list_assessments
list_assessments_pages org m n offset t =
    let rows = sort newer_row (keep_if (in_organization org) t) in
    ap (map row_assessment) (page_rows m n offset rows)
    ∙ map-append row_assessment (take m (drop offset rows)) (take n (drop (offset + m) rows))
