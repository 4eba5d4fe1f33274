-- ===== src/Api/Routers/Plans.antt =====
-- api/routers/billing.py and audit.py.
use security_review_ai.Prelude.{ℕ, String, Option, List, [], ◌∷◌}
use security_review_ai.Exec.{Error, Result, payment_provider_error, pure, gets, lift, ◌>>=◌}
use security_review_ai.System.{Action}
use security_review_ai.Domain.Auth.{UserRole}
use security_review_ai.Domain.Audit.{ConsentAuditEntry}
use security_review_ai.Domain.Billing.{
  PlanTier, PlanDefinition, PlanResponse, UsageResponse, plan_to_response,
}
use security_review_ai.Billing.Payment.{PaymentProvider}
use security_review_ai.Billing.Service.{change_plan}
use security_review_ai.Billing.Service
use security_review_ai.Assessments.Service.{get_consent_audit_log as consent_entries}
use security_review_ai.Auth.{TokenCodec}
use security_review_ai.Api.Http.{Handler, answer, no_handler, with_organization, with_roles}

abbrev pub bad_gateway : Error → ℕ
bad_gateway payment_provider_error = 502
bad_gateway e = 500

abbrev pub bad_request : Error → ℕ
bad_request payment_provider_error = 400
bad_request e = 500

unfoldable pub list_plans : Handler (List PlanResponse)
list_plans = answer 200 no_handler (pure Service.list_plans)

abbrev with_checkout : PlanDefinition × Option String → PlanResponse
with_checkout (d, url) = record (plan_to_response d) { checkout_url = url }

module _ (provider : PaymentProvider) where
  -- the base URL goes into the two return URLs of the checkout
  abbrev change : Result String → ℕ → PlanTier → String → Action PlanResponse
  change base_url org plan email = do
    url ← lift base_url
    r ← change_plan provider org plan email
    pure (with_checkout r)

  unfoldable pub stripe_webhook : String → Option String → Handler (Unit {0})
  stripe_webhook payload signature =
      answer 200 bad_request (Service.handle_stripe_webhook provider payload signature)

  module _ (codec : TokenCodec) (now : ℕ) (header : Option String) where
    unfoldable pub get_usage : Handler UsageResponse
    get_usage =
        with_organization codec now header
          (λ org. answer 200 no_handler (gets (Service.get_usage org)))

    unfoldable pub subscribe : Result String → PlanTier → Handler PlanResponse
    subscribe base_url plan =
        with_roles codec now header (UserRole.owner ∷ [])
          (λ org u. answer 200 bad_gateway (change base_url org plan u.email))

module _ (codec : TokenCodec) (now : ℕ) (header : Option String) where
  unfoldable pub get_consent_audit_log : Handler (List ConsentAuditEntry)
  get_consent_audit_log =
      with_organization codec now header (λ org. answer 200 no_handler (gets (consent_entries org)))
