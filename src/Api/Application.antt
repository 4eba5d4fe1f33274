-- ===== src/Api/Application.antt =====
-- main.py: the middleware and the health endpoints. `getenv` and `urlsplit` stand for the environment
-- and for urllib.
pub mod Readiness
use security_review_ai.Prelude.{
  ℕ, String, Bool, true, false, Option, none, some, List, [], ◌∷◌, ◌++◌, if◌then◌else◌,
}
use security_review_ai.Exec.{Error, Result, ok, err}
use security_review_ai.Security.OutboundUrl.{SplitUrl}
use security_review_ai.Security.Secrets.{validate_production_secrets}
use security_review_ai.Api.Dependencies.{api_key_passes}

module _ (getenv : String → Option String) (urlsplit : String → Option SplitUrl) where
  abbrev error_of : Result (Unit {0}) → Option Error
  error_of (ok u) = none
  error_of (err e) = some e

  -- `_startup_validation_error`, which `_run_startup_validation` keeps in the state of the application
  unfoldable pub startup_validation_error : Option Error
  startup_validation_error = error_of (validate_production_secrets getenv urlsplit)

  abbrev pub unless_error : Option Error → ℕ
  unless_error none = 200
  unless_error (some e) = 503

  -- the status codes of the three endpoints, and the startup error that is kept after them
  unfoldable pub readiness : ℕ × Option Error
  readiness = (unless_error startup_validation_error, startup_validation_error)

  unfoldable pub health : ℕ × Option Error
  health = (unless_error startup_validation_error, startup_validation_error)

abbrev pub liveness : ℕ
liveness = 200

-- the counters, as the labels of their increments
pub record Metrics : Type 0 where
  pub http_requests_total : List (String × String × ℕ)
  pub unhandled_exceptions_total : List String

-- what `call_next` does: a response with a status code, or an exception
pub data Outcome : Type 0 where
  response : ℕ → Outcome
  exception : Error → Outcome

unfoldable pub observe_requests : String → String → Outcome → Metrics → Outcome × Metrics
observe_requests method path (response status) m = (
  response status,
  record m { http_requests_total = m.http_requests_total ++ (method, path, status) ∷ [] },
)
observe_requests method path (exception e) m = (
  exception e,
  record m { unhandled_exceptions_total = m.unhandled_exceptions_total ++ path ∷ [] },
)

-- `next` is what the request comes to, and what it leaves of a state
unfoldable pub enforce_api_key {ℓ} :
    {S : Type ℓ}
    → (String → Option String)
    → String
    → Option String
    → (S → Outcome × S)
    → S
    → Outcome × S
enforce_api_key getenv path provided next s =
    if api_key_passes getenv path provided then next s else (response 401, s)

-- the middleware that was added last runs first
unfoldable pub handle {ℓ} :
    {S : Type ℓ}
    → (String → Option String)
    → String
    → String
    → Option String
    → (S → Outcome × S)
    → S × Metrics
    → Outcome × (S × Metrics)
unfolding enforce_api_key observe_requests
handle getenv method path provided next (s, m) =
    enforce_api_key getenv path provided
      (λ (p : _ × Metrics).
        let (o, s') = next p.0 in
        let (o', m') = observe_requests method path o p.1 in (o', (s', m')))
      (s, m)
