-- ===== src/Prelude/Dict.antt =====
-- Python's dict with a value that each write makes from the one before, as `counter[k] += 1` and
-- `d.setdefault(k, set()).add(v)` do. Keys are in the order of their first write.
use security_review_ai.Prelude.Tests.{Bool-cases, if◌then◌else◌}
use security_review_ai.Prelude.Lists.{any}
use mathlib.Core.Path.{◌≡◌, refl, sym, ◌∙◌}
use mathlib.Core.Bool.{Bool, true, false, false≢true, ◌&&◌, ◌||◌}
use mathlib.Core.Option.{Option, none, some}
use mathlib.Core.Logic.{◌↔◌, inl, inr}
use mathlib.Core.List.{List, [], ◌∷◌}
use native.Mathlib.Omega.{arith}

different {ℓ} :
    {K : Type ℓ} (same : K → K → Bool)
    → ((j k : K) → (same j k ≡ true) ↔ (j ≡ k))
    → (j k : K) → same j k ≡ false
    → same k j ≡ false
different same same_iff j k e = elim (Bool-cases (same k j)) [
  | inl h ↦ absurd (false≢true (sym e ∙ (same_iff j k).1 (sym ((same_iff k j).0 h))))
  | inr h ↦ h
]

module _ {ℓ κ} {K : Type ℓ} {V : Type κ} (same : K → K → Bool) where
  unfoldable pub update_key : (Option V → V) → K → List (K × V) → List (K × V)
  update_key f k [] = (k, f none) ∷ []
  update_key f k ((j, v) ∷ t) = if same j k then (j, f (some v)) ∷ t else (j, v) ∷ update_key f k t

  unfoldable pub value_of : K → List (K × V) → Option V
  value_of k [] = none
  value_of k ((j, v) ∷ t) = if same j k then some v else value_of k t

  abbrev has_key : K → K × V → Bool
  has_key k (j, v) = same j k

  abbrev pub IsDict : List (K × V) → Type 0
  IsDict [] = Unit
  IsDict ((k, v) ∷ t) = (any (has_key k) t ≡ false) × IsDict t

  abbrev pub at_key : K → (V → Bool) → K × V → Bool
  at_key k p (j, v) = same j k && p v

  abbrev pub holds : (V → Bool) → Option V → Bool
  holds p none = false
  holds p (some v) = p v

  module _ (same_iff : (j k : K) → (same j k ≡ true) ↔ (j ≡ k)) where
    any-update_key :
        (f : Option V → V) (k i : K) (t : List (K × V))
        → any (has_key i) (update_key f k t) ≡ any (has_key i) t || same k i
    unfolding update_key
    any-update_key f k i [] = ground arith
    any-update_key f k i ((j, v) ∷ t) = elim (Bool-cases (same j k)) [
      | inl e ↦ rw (e, if◌then◌else◌) (rw ((same_iff j k).0 e) (ground arith))
      | inr e ↦ rw (e, if◌then◌else◌) (ground (arith, any-update_key f k i t))
    ]

    pub update_key-IsDict :
        (f : Option V → V) (k : K) (t : List (K × V)) → IsDict t → IsDict (update_key f k t)
    unfolding update_key
    update_key-IsDict f k [] h = (refl, tt)
    update_key-IsDict f k ((j, v) ∷ t) (fresh, h) = elim (Bool-cases (same j k)) [
      | inl e ↦ rw (e, if◌then◌else◌) (fresh, h)
      | inr e ↦
          rw (e, if◌then◌else◌)
            (
              any-update_key f k j t ∙ rw (fresh, different same same_iff j k e) refl,
              update_key-IsDict f k t h,
            )
    ]

    pub value_of-update_key :
        (f : Option V → V) (k i : K) (t : List (K × V))
        → value_of i (update_key f k t)
          ≡ (if same k i then some (f (value_of k t)) else value_of i t)
    unfolding update_key value_of
    value_of-update_key f k i [] = refl
    value_of-update_key f k i ((j, v) ∷ t) = elim (Bool-cases (same j k)) [
      | inl e ↦ rw (e, if◌then◌else◌) (rw ((same_iff j k).0 e) (ground arith))
      | inr e ↦
          rw (e, if◌then◌else◌)
            (ground (arith, value_of-update_key f k i t, same_iff j i, same_iff k i, same_iff j k))
    ]

    no_key :
        (k : K) (p : V → Bool) (t : List (K × V))
        → any (has_key k) t ≡ false
        → any (at_key k p) t ≡ false
    no_key k p [] h = refl
    no_key k p ((j, v) ∷ t) h = ground (arith, no_key k p t)

    -- among the entries, the one with the key decides
    pub any-at_key :
        (k : K) (p : V → Bool) (t : List (K × V))
        → IsDict t
        → any (at_key k p) t ≡ holds p (value_of k t)
    unfolding value_of
    any-at_key k p [] h = refl
    any-at_key k p ((j, v) ∷ t) (fresh, h) = elim (Bool-cases (same j k)) [
      | inl e ↦
          rw (e, if◌then◌else◌) (ground (arith, no_key k p t (rw (sym ((same_iff j k).0 e)) fresh)))
      | inr e ↦ rw (e, if◌then◌else◌) (any-at_key k p t h)
    ]

    fails_at :
        (p : V → Bool) (t : List (K × V))
        → any (λ (j, v). p v) t ≡ false
        → (k : K) → holds p (value_of k t) ≡ false
    unfolding value_of
    fails_at p [] h k = refl
    fails_at p ((j, v) ∷ t) h k = elim (Bool-cases (same j k)) [
      | inl e ↦ rw (e, if◌then◌else◌) (ground arith)
      | inr e ↦ rw (e, if◌then◌else◌) (fails_at p t (ground arith) k)
    ]

    first_fails :
        (p : V → Bool) (j : K) (v : V) (t : List (K × V))
        → ((k : K) → holds p (value_of k ((j, v) ∷ t)) ≡ false)
        → p v ≡ false
    unfolding value_of
    first_fails p j v t f = ground (arith, f j, same_iff j j)

    absent : (k : K) (t : List (K × V)) → any (has_key k) t ≡ false → value_of k t ≡ none
    unfolding value_of
    absent k [] h = refl
    absent k ((j, v) ∷ t) h = ground (arith, absent k t)

    rest_fails :
        (p : V → Bool) (j : K) (v : V) (t : List (K × V))
        → any (has_key j) t ≡ false
        → ((k : K) → holds p (value_of k ((j, v) ∷ t)) ≡ false)
        → (k : K) → holds p (value_of k t) ≡ false
    unfolding value_of
    rest_fails p j v t fresh f k = elim (Bool-cases (same j k)) [
      | inl e ↦ rw (absent k t (rw (sym ((same_iff j k).0 e)) fresh)) refl
      | inr e ↦ ground (arith, f k)
    ]

    fails_on :
        (p : V → Bool) (t : List (K × V))
        → IsDict t
        → ((k : K) → holds p (value_of k t) ≡ false)
        → any (λ (j, v). p v) t ≡ false
    unfolding value_of
    fails_on p [] h f = refl
    fails_on p ((j, v) ∷ t) (fresh, h) f =
        ground (arith, first_fails p j v t f, fails_on p t h (rest_fails p j v t fresh f))

    -- a test that the value of every key fails fails on every entry
    pub any-values :
        (p : V → Bool) (t : List (K × V))
        → IsDict t
        → (any (λ (j, v). p v) t ≡ false) ↔ ((k : K) → holds p (value_of k t) ≡ false)
    any-values p t h = (fails_at p t, fails_on p t h)
