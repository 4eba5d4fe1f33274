-- ===== src/Prelude/Unique.antt =====
-- Tables in which no two rows agree in a key, and what a statement does to a count in them.
-- `same x y` says that the rows `x` and `y` have the same key.
use security_review_ai.Prelude.{
  ℕ, ◌+◌, ◌≡◌, refl, Bool, true, false, not, some, List, [], ◌∷◌, ◌++◌, arith, keep_if, count_if,
  update_where, find_first, any, if◌then◌else◌, count_if-append, Bool-cases, inl, inr,
}

abbrev pub Unique {ℓ} : {A : Type ℓ} → (A → A → Bool) → List A → Type 0
Unique same [] = Unit
Unique same (x ∷ t) = (count_if (same x) t ≡ 0) × Unique same t

abbrev pub to_number : Bool → ℕ
to_number true = 1
to_number false = 0

module _ {ℓ} {A : Type ℓ} (same : A → A → Bool) where
  -- INSERT, after the test that no row has the key
  pub Unique-append :
      (t : List A) (x : A)
      → Unique same t
      → any (λ y. same y x) t ≡ false
      → Unique same (t ++ x ∷ [])
  Unique-append [] x h e = (refl, tt)
  Unique-append (y ∷ t) x (hy, h) e =
      (rw (count_if-append (same y) t (x ∷ [])) (ground arith), Unique-append t x h (ground arith))

  count-keep_if_zero :
      (p q : A → Bool) (t : List A) → count_if p t ≡ 0 → count_if p (keep_if q t) ≡ 0
  count-keep_if_zero p q [] h = refl
  count-keep_if_zero p q (x ∷ t) h = ground (arith, count-keep_if_zero p q t)

  -- DELETE
  pub Unique-keep_if : (q : A → Bool) (t : List A) → Unique same t → Unique same (keep_if q t)
  Unique-keep_if q [] h = tt
  Unique-keep_if q (x ∷ t) (hx, h) = elim (Bool-cases (q x)) [
    | inl e ↦ rw (e, if◌then◌else◌) (count-keep_if_zero (same x) q t hx, Unique-keep_if q t h)
    | inr e ↦ rw (e, if◌then◌else◌) (Unique-keep_if q t h)
  ]

module _ {ℓ} {A : Type ℓ} (same : A → A → Bool) (q : A → Bool) (f : A → A)
    (keeps_left : (x y : A) → same (f x) y ≡ same x y)
    (keeps_right : (x y : A) → same x (f y) ≡ same x y) where
  count-update_where :
      (x : A) (t : List A) → count_if (same x) (update_where q f t) ≡ count_if (same x) t
  count-update_where x [] = refl
  count-update_where x (y ∷ t) = ground (arith, keeps_right x y, count-update_where x t)

  count-of_updated : (x : A) (t : List A) → count_if (same (f x)) t ≡ count_if (same x) t
  count-of_updated x [] = refl
  count-of_updated x (y ∷ t) = ground (arith, keeps_left x y, count-of_updated x t)

  -- UPDATE of columns that are not in the key
  pub Unique-update_where : (t : List A) → Unique same t → Unique same (update_where q f t)
  Unique-update_where [] h = tt
  Unique-update_where (x ∷ t) (hx, h) = (
    ground (arith, count-update_where x t, count-update_where (f x) t, count-of_updated x t),
    Unique-update_where t h,
  )

module _ {ℓ} {A : Type ℓ} (same : A → A → Bool) (q : A → Bool)
    (one_key : (x y : A) → q x ≡ true → q y ≡ true → same x y ≡ true) where
  none_behind : (x : A) (t : List A) → q x ≡ true → count_if (same x) t ≡ 0 → count_if q t ≡ 0
  none_behind x [] e h = refl
  none_behind x (y ∷ t) e h = ground (arith, one_key x y, none_behind x t e)

  update-of_none :
      (p : A → Bool) (f : A → A) (t : List A)
      → count_if q t ≡ 0
      → count_if p (update_where q f t) ≡ count_if p t
  update-of_none p f [] h = refl
  update-of_none p f (x ∷ t) h = ground (arith, update-of_none p f t)

  delete-of_none :
      (p : A → Bool) (t : List A)
      → count_if q t ≡ 0
      → count_if p (keep_if (λ x. not (q x)) t) ≡ count_if p t
  delete-of_none p [] h = refl
  delete-of_none p (x ∷ t) h = ground (arith, delete-of_none p t)

  -- an UPDATE of the row with a key changes a count by that row alone
  pub count-update_where_one :
      (p : A → Bool) (f : A → A) (t : List A) (u : A)
      → Unique same t
      → find_first q t ≡ some u
      → count_if p (update_where q f t) + to_number (p u) ≡ count_if p t + to_number (p (f u))
  count-update_where_one p f [] u h e = absurd (cc)
  count-update_where_one p f (x ∷ t) u (hx, h) e =
      ground (arith, none_behind x t, update-of_none p f t, count-update_where_one p f t u h)

  -- so does a DELETE
  pub count-delete_one :
      (p : A → Bool) (t : List A) (u : A)
      → Unique same t
      → find_first q t ≡ some u
      → count_if p (keep_if (λ x. not (q x)) t) + to_number (p u) ≡ count_if p t
  count-delete_one p [] u h e = absurd (cc)
  count-delete_one p (x ∷ t) u (hx, h) e =
      ground (arith, none_behind x t, delete-of_none p t, count-delete_one p t u h)
