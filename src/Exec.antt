-- ===== src/Exec.antt =====
-- Exceptions as values, and methods that change shared state and may raise. What was written
-- before a raise stays written (each SQL statement commits by itself), so the state comes back
-- beside an error too. Exceptions carry their class; the texts of their messages are left out.
use security_review_ai.Prelude.{Bool, true, false, Option, none, some, ◌≡◌, refl, ◌⊎◌, inl, inr}

pub data Error : Type 0 where
  key_error value_error integrity_error : Error
  invalid_assessment_state invalid_finding_state invalid_repository_state : Error
  repository_not_ready plan_limit_exceeded : Error
  invalid_credentials invalid_token invalid_reset_token : Error
  team_error last_owner : Error
  payment_provider_error email_provider_error : Error
  unsafe_outbound_url repository_ingestion insecure_configuration public_base_url : Error
  -- an exception of a class that the program does not declare
  other_exception : Error

pub data Result {ℓ} (A : Type ℓ) : Type ℓ where
  ok : A → Result A
  err : Error → Result A

pub Result-cases {ℓ} :
    {A : Type ℓ} (r : Result A) → ((a : A) × (r ≡ ok a)) ⊎ ((e : Error) × (r ≡ err e))
Result-cases (ok a) = inl (a, refl)
Result-cases (err e) = inr (e, refl)

-- a chain of pure steps that may raise
abbrev pub and_then {ℓ κ} : {A : Type ℓ} {B : Type κ} → Result A → (A → Result B) → Result B
and_then (ok a) f = f a
and_then (err e) f = err e

abbrev pub Exec : Type 0 → Type 0 → Type 0
Exec S A = S → Result A × S

abbrev pub continue : {S A B : Type 0} → Result A → (A → Exec S B) → Exec S B
continue (ok a) f s = f a s
continue (err e) f s = (err e, s)

module _ {S A : Type 0} where
  abbrev pub pure : A → Exec S A
  pure a s = (ok a, s)

  abbrev pub raise : Error → Exec S A
  raise e s = (err e, s)

  abbrev pub lift : Result A → Exec S A
  lift r s = (r, s)

  abbrev pub gets : (S → A) → Exec S A
  gets f s = (ok (f s), s)

  -- `if x is None: raise e`
  abbrev pub or_raise : Option A → Error → Exec S A
  or_raise none e = raise e
  or_raise (some a) e = pure a

module _ {S : Type 0} where
  abbrev pub modify : (S → S) → Exec S (Unit {0})
  modify f s = (ok tt, f s)

  -- `if b: raise e`
  abbrev pub raise_if : Bool → Error → Exec S (Unit {0})
  raise_if true e = raise e
  raise_if false e = pure tt

infixl 5 ◌>>=◌ ◌>>◌
abbrev pub ◌>>=◌ : {S A B : Type 0} → Exec S A → (A → Exec S B) → Exec S B
◌>>=◌ m f s = let (r, s') = m s in continue r f s'

abbrev pub ◌>>◌ : {S A B : Type 0} → Exec S A → Exec S B → Exec S B
m >> n = m >>= λ _. n

-- a step that leaves the state as it is, and what follows it
pub steady_then :
    {S A B : Type 0} (P : Result B × S → Type 0) (m : Exec S A) (f : A → Exec S B) (s : S)
    → (m s).1 ≡ s
    → ((e : Error) → P (err e, s))
    → ((a : A) → (m s).0 ≡ ok a → P (f a s))
    → P ((m >>= f) s)
steady_then P m f s k raised next = elim (Result-cases (m s).0) [
  | inl (a, e) ↦ rw (e, k) (next a e)
  | inr (x, e) ↦ rw (e, k) (raised x)
]
