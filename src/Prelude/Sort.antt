-- ===== src/Prelude/Sort.antt =====
-- ORDER BY: a stable insertion sort by a test `before x y`, which says that `x` may stand first.
use security_review_ai.Prelude.{
  ◌≡◌, refl, Bool, true, false, List, [], ◌∷◌, arith, if◌then◌else◌, count_if, length, suc, All,
  Bool-cases, inl, inr,
}

module _ {ℓ} {A : Type ℓ} (before : A → A → Bool) where
  abbrev pub insert_sorted : A → List A → List A
  insert_sorted x [] = x ∷ []
  insert_sorted x (y ∷ ys) = if before x y then x ∷ y ∷ ys else y ∷ insert_sorted x ys

  abbrev pub sort : List A → List A
  sort [] = []
  sort (x ∷ xs) = insert_sorted x (sort xs)

  abbrev pub IsSorted : List A → Type 0
  IsSorted [] = Unit
  IsSorted (x ∷ xs) = All (λ y. before x y ≡ true) xs × IsSorted xs

module _ {ℓ} {A : Type ℓ} (before : A → A → Bool) where
  count_if-insert_sorted :
      (p : A → Bool) (x : A) (ys : List A)
      → count_if p (insert_sorted before x ys) ≡ count_if p (x ∷ ys)
  count_if-insert_sorted p x [] = refl
  count_if-insert_sorted p x (y ∷ ys) = ground (arith, count_if-insert_sorted p x ys)

  -- sorting keeps how often each test passes
  pub count_if-sort : (p : A → Bool) (xs : List A) → count_if p (sort before xs) ≡ count_if p xs
  count_if-sort p [] = refl
  count_if-sort p (x ∷ xs) =
      ground (arith, count_if-insert_sorted p x (sort before xs), count_if-sort p xs)

  length-insert_sorted :
      (x : A) (ys : List A) → length (insert_sorted before x ys) ≡ suc (length ys)
  length-insert_sorted x [] = refl
  length-insert_sorted x (y ∷ ys) = ground (arith, length-insert_sorted x ys)

  pub length-sort : (xs : List A) → length (sort before xs) ≡ length xs
  length-sort [] = refl
  length-sort (x ∷ xs) = ground (arith, length-insert_sorted x (sort before xs), length-sort xs)

  All-insert_sorted {κ} :
      (P : A → Type κ) (x : A) (ys : List A) → P x → All P ys → All P (insert_sorted before x ys)
  All-insert_sorted P x [] px h = (px, tt)
  All-insert_sorted P x (y ∷ ys) px (py, h) = elim (Bool-cases (before x y)) [
    | inl e ↦ rw (e, if◌then◌else◌) (px, (py, h))
    | inr e ↦ rw (e, if◌then◌else◌) (py, All-insert_sorted P x ys px h)
  ]

  pub All-sort {κ} : (P : A → Type κ) (xs : List A) → All P xs → All P (sort before xs)
  All-sort P [] h = tt
  All-sort P (x ∷ xs) (px, h) = All-insert_sorted P x (sort before xs) px (All-sort P xs h)

module _ {ℓ} {A : Type ℓ} (before : A → A → Bool)
    (total : (x y : A) → before x y ≡ false → before y x ≡ true)
    (trans : (x y z : A) → before x y ≡ true → before y z ≡ true → before x z ≡ true) where
  below-All :
      (x y : A) (ys : List A)
      → before x y ≡ true
      → All (λ z. before y z ≡ true) ys
      → All (λ z. before x z ≡ true) ys
  below-All x y [] e h = tt
  below-All x y (z ∷ ys) e (h, hs) = (trans x y z e h, below-All x y ys e hs)

  insert_sorted-IsSorted :
      (x : A) (ys : List A) → IsSorted before ys → IsSorted before (insert_sorted before x ys)
  insert_sorted-IsSorted x [] h = (tt, tt)
  insert_sorted-IsSorted x (y ∷ ys) (hy, hs) = elim (Bool-cases (before x y)) [
    | inl e ↦ rw (e, if◌then◌else◌) ((e, below-All x y ys e hy), (hy, hs))
    | inr e ↦
        rw (e, if◌then◌else◌)
          (
            All-insert_sorted before (λ z. before y z ≡ true) x ys (total x y e) hy,
            insert_sorted-IsSorted x ys hs,
          )
  ]

  pub sort-IsSorted : (xs : List A) → IsSorted before (sort before xs)
  sort-IsSorted [] = tt
  sort-IsSorted (x ∷ xs) = insert_sorted-IsSorted x (sort before xs) (sort-IsSorted xs)
