-- ===== src/Tests/Endpoints.antt =====
-- Requests over HTTP, the event stream of a scan job, and readiness.
use security_review_ai.Prelude.{
  ℕ, zero, suc, str_eq, if◌then◌else◌, ◌≤◌, ◌≡◌, ◌↔◌, refl, String, true, Option, none, some, [],
  ◌∷◌, arith, length, strip, lower, split_once,
}
use security_review_ai.Exec.{ok}
use security_review_ai.System.{System}
use security_review_ai.Domain.Auth.{User, UserRole}
use security_review_ai.Domain.Billing.{PlanTier}
use security_review_ai.Domain.Assessment.{ScanJob, ScanStatus}
use security_review_ai.Billing.Payment.{mock_provider}
use security_review_ai.Persistence.Users.{get_user_by_id}
use security_review_ai.Auth.{TokenCodec, get_current_user}
use security_review_ai.Assessments.Webhook.{posted}
use security_review_ai.Scanners.Factory.{found}
use security_review_ai.Api.Dependencies.{current_user, extract_bearer_token}
use security_review_ai.Api.Endpoints.{Host, Request, serve}
use security_review_ai.Api.Endpoints.Gate.{serve-refused, serve-forbidden}
use security_review_ai.Api.Stream.{event_generator, has_ended, max_polls}
use security_review_ai.Api.Stream.Delivery.{
  IsNews, last_payload, event_generator-IsNews, event_generator-ended,
}
use security_review_ai.Security.Secrets.{is_production}
use security_review_ai.Api.Application.{readiness}
use security_review_ai.Api.Application.Readiness.{IsSecure, readiness_iff}
use security_review_ai.Tests.{sample, ann, deaf, digests, mail, net, pending_job, example_url}

abbrev bob : User
bob = record ann { id = 2; email = "bob@x.io"; role = UserRole.member }

abbrev staffed : System
staffed = record sample { users = ann ∷ bob ∷ [] }

-- every token is one of bob's
abbrev as_bob : TokenCodec
as_bob = record {
  encode = λ c. "token";
  decode = λ now t. some (record { sub = 2; org = 1; role = UserRole.member; iat = 0; exp = 9 });
}

abbrev host : TokenCodec → Host
host codec = record {
  codec = codec;
  digests = digests;
  mail = mail;
  payments = mock_provider (λ org plan. "mock");
  base_url = ok "https://example.org";
  disk = record { resolve = λ p. p; exists = λ p. true };
  net = net;
  hook = record { secret = none; sign = λ k p. k; post = λ d. posted };
  run = λ c target confirmed. found [];
  poll = λ id job n. none;
  json = λ j. "{}";
}

serve-refused_example :
    serve (host deaf) 5 (some "Bearer abc") (Request.delete_assessment 7) sample ≡ (401, sample)
unfolding extract_bearer_token lower strip split_once current_user get_current_user
serve-refused_example =
    serve-refused (host deaf) 5 (some "Bearer abc") (Request.delete_assessment 7) sample 401 refl

serve-forbidden_example :
    serve (host as_bob) 5 (some "Bearer abc") (Request.subscribe PlanTier.pro) staffed
    ≡ (403, staffed)
unfolding extract_bearer_token lower strip split_once current_user get_current_user get_user_by_id
serve-forbidden_example =
    serve-forbidden (host as_bob) 5 (some "Bearer abc") (Request.subscribe PlanTier.pro) staffed bob
      refl refl

abbrev ended_job : ScanJob
ended_job = record pending_job { status = ScanStatus.completed }

-- two polls find the job pending, the third finds it completed
abbrev polls : ℕ → Option ScanJob
polls zero = some pending_job
polls (suc zero) = some pending_job
polls (suc (suc n)) = some ended_job

abbrev dump : ScanJob → String
dump j = if has_ended j.status then "completed" else "pending"

event_generator-IsNews_example :
    IsNews none (event_generator polls dump) × (length (event_generator polls dump) ≤ max_polls)
event_generator-IsNews_example = event_generator-IsNews polls dump

event_generator-ended_example : last_payload none (event_generator polls dump) ≡ some "completed"
event_generator-ended_example =
    event_generator-ended polls dump 2 ended_job (omega arith)
      ((pending_job, refl, refl), ((pending_job, refl, refl), tt)) refl refl

-- production without any secret
abbrev bare : String → Option String
bare name = if str_eq name "SECURITY_REVIEW_ENVIRONMENT" then some "production" else none

readiness_iff_example :
    ((readiness bare (λ url. some example_url)).0 ≡ 200)
    ↔ (is_production bare ≡ true → IsSecure bare (λ url. some example_url))
readiness_iff_example = readiness_iff bare (λ url. some example_url)
