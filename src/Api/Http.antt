-- ===== src/Api/Http.antt =====
-- Answers over HTTP: what the handlers of the routers have in common. A handler that raises an
-- exception other than HTTPException is answered by the server with a 500.
use security_review_ai.Prelude.{ℕ, String, Option, List}
use security_review_ai.Exec.{Error, key_error, Result, ok, err}
use security_review_ai.System.{Action, System}
use security_review_ai.Domain.Auth.{User, UserRole}
use security_review_ai.Auth.{TokenCodec}
use security_review_ai.Api.Dependencies.{
  Dependency, resolved, http_error, current_user, current_organization_id, require_roles,
}

-- a body with its status code, or an error with its status code
pub data Response (A : Type 0) : Type 0 where
  replied : ℕ → A → Response A
  failed : ℕ → Response A

abbrev pub Handler : Type 0 → Type 0
Handler A = System → Response A × System

abbrev pub status_of : {A : Type 0} → Response A → ℕ
status_of (replied status a) = status
status_of (failed status) = status

abbrev pub respond : {A : Type 0} → ℕ → (Error → ℕ) → Result A → Response A
respond success on_error (ok a) = replied success a
respond success on_error (err e) = failed (on_error e)

-- `try: return service… except E as exc: raise HTTPException(…)`
abbrev pub answer : {A : Type 0} → ℕ → (Error → ℕ) → Action A → Handler A
answer success on_error act s = let (r, s') = act s in (respond success on_error r, s')

-- no `except` clause
abbrev pub no_handler : Error → ℕ
no_handler e = 500

-- `except KeyError`
abbrev pub not_found : Error → ℕ
not_found key_error = 404
not_found e = 500

-- a parameter `= Depends(…)`
abbrev pub need : {A B : Type 0} → Dependency B → (B → Handler A) → Handler A
need (resolved b) h s = h b s
need (http_error status) h s = (failed status, s)

module _ (codec : TokenCodec) (now : ℕ) (header : Option String) {A : Type 0} where
  abbrev pub with_user : (User → Handler A) → Handler A
  with_user h s = need (current_user codec now header s) h s

  abbrev pub with_organization : (ℕ → Handler A) → Handler A
  with_organization h s = need (current_organization_id codec now header s) h s

  -- the organization, then `Depends(require_roles(…))`
  abbrev pub with_roles : List UserRole → (ℕ → User → Handler A) → Handler A
  with_roles allowed h =
      with_organization (λ org. with_user (λ u. need (require_roles allowed u) (h org)))
