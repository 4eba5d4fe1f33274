-- ===== src/Billing/Service.antt =====
-- backend/src/security_review/application/billing_service.py
pub mod Changes
pub mod Webhooks
use security_review_ai.Prelude.{
  ℕ, ◌==◌, ◌+◌, String, Bool, true, false, Option, some, none, List, [], ◌∷◌, leb, length, map,
  if◌then◌else◌, is_nonempty,
}
use security_review_ai.Exec.{pure, raise, gets, modify, raise_if, plan_limit_exceeded, ◌>>=◌, ◌>>◌}
use security_review_ai.System.{Action, System}
use security_review_ai.Domain.Auth.{nil_organization_id, Organization}
use security_review_ai.Domain.Billing.{
  PlanTier, tier_eq, PlanDefinition, PlanResponse, UsageResponse, plan_catalog, plan_to_response,
}
use security_review_ai.Domain.Assessment.{Assessment}
use security_review_ai.Persistence.Users.{
  get_organization, update_organization_plan, update_organization_stripe_ids,
  get_organization_id_by_stripe_customer_id,
}
use security_review_ai.Persistence.Assessments.{list_assessments, count}
use security_review_ai.Billing.Payment.{
  PaymentProvider, PlanChange, SubscriptionResult, WebhookOutcome,
}

-- the values of PLAN_CATALOG, in its order
unfoldable pub list_plans : List PlanResponse
list_plans =
    map (λ t. plan_to_response (plan_catalog t))
      (PlanTier.free ∷ PlanTier.pro ∷ PlanTier.enterprise ∷ [])

abbrev tier_of : Option Organization → PlanTier
tier_of none = PlanTier.free
tier_of (some o) = o.plan

unfoldable pub get_plan_definition : ℕ → System → PlanDefinition
get_plan_definition org s = plan_catalog (tier_of (get_organization org s.organizations))

abbrev pub total_scan_jobs : List Assessment → ℕ
total_scan_jobs [] = 0
total_scan_jobs (a ∷ t) = length a.scan_jobs + total_scan_jobs t

-- sum(len(assessment.scan_jobs) for assessment in list(organization_id))
unfoldable pub scan_jobs_used : ℕ → System → ℕ
scan_jobs_used org s = total_scan_jobs (list_assessments (some org) none 0 s.assessments)

unfoldable pub get_usage : ℕ → System → UsageResponse
get_usage org s = record {
  plan = plan_to_response (get_plan_definition org s);
  assessments_used = length (list_assessments (some org) none 0 s.assessments);
  scan_jobs_used = scan_jobs_used org s;
}

-- `limit is not None and current >= limit`
abbrev pub is_exceeded : Option ℕ → ℕ → Bool
is_exceeded none current = false
is_exceeded (some limit) current = leb limit current

-- the nil organization is never limited
abbrev pub over_limit : ℕ → Option ℕ → ℕ → Bool
over_limit org limit current =
    if org == nil_organization_id then false else is_exceeded limit current

unfoldable pub enforce_assessment_limit : ℕ → Action (Unit {0})
enforce_assessment_limit org s =
    raise_if
      (over_limit org (get_plan_definition org s).max_assessments (count (some org) s.assessments))
      plan_limit_exceeded s

unfoldable pub enforce_scan_job_limit : ℕ → Action (Unit {0})
enforce_scan_job_limit org s =
    raise_if (over_limit org (get_plan_definition org s).max_scan_jobs (scan_jobs_used org s))
      plan_limit_exceeded s

abbrev customer_of : Option Organization → Option String
customer_of none = none
customer_of (some o) = o.stripe_customer_id

abbrev subscription_of : Option Organization → Option String
subscription_of none = none
subscription_of (some o) = o.stripe_subscription_id

abbrev set_plan : ℕ → PlanTier → Action (Unit {0})
set_plan org plan =
    modify (λ s. record s { organizations = update_organization_plan org plan s.organizations })

abbrev set_stripe_ids : ℕ → Option String → Option String → Action (Unit {0})
set_stripe_ids org customer subscription = modify (λ s. record s {
  organizations = update_organization_stripe_ids org customer subscription s.organizations;
})

-- organization_id, or else the organization of the event's customer
abbrev resolve : WebhookOutcome → Option ℕ → Option String → Action (Option ℕ)
resolve w (some org) customer = pure (some org)
resolve w none none = pure none
resolve w none (some c) =
    if is_nonempty c
    then gets (λ s. get_organization_id_by_stripe_customer_id c s.organizations)
    else pure none

abbrev apply_to : WebhookOutcome → Option ℕ → Action (Unit {0})
apply_to w none = pure tt
apply_to w (some org) =
    set_plan org w.plan >> set_stripe_ids org w.stripe_customer_id w.stripe_subscription_id

abbrev apply_outcome : Option WebhookOutcome → Action (Unit {0})
apply_outcome none = pure tt
apply_outcome (some w) = do org ← resolve w w.organization_id w.stripe_customer_id; apply_to w org

module _ (provider : PaymentProvider) where
  abbrev activate : ℕ → Option String → SubscriptionResult → Action (PlanDefinition × Option String)
  activate org customer r = do
    set_plan org r.plan
    if tier_eq r.plan PlanTier.free then set_stripe_ids org customer none else pure tt
    pure (plan_catalog r.plan, none)

  abbrev finish :
      ℕ → PlanTier → Option String → SubscriptionResult → Action (PlanDefinition × Option String)
  finish org plan customer r =
      if r.activated_immediately
      then activate org customer r
      else pure (plan_catalog plan, r.checkout_url)

  unfoldable pub change_plan : ℕ → PlanTier → String → Action (PlanDefinition × Option String)
  change_plan org plan email = do
    organization ← gets (λ s. get_organization org s.organizations)
    result ← provider.start_plan_change (record {
      organization_id = org;
      plan = plan;
      customer_email = email;
      stripe_customer_id = customer_of organization;
      stripe_subscription_id = subscription_of organization;
    })
    finish org plan (customer_of organization) result

  unfoldable pub handle_stripe_webhook : String → Option String → Action (Unit {0})
  handle_stripe_webhook payload signature = do
    outcome ← provider.handle_webhook payload signature
    apply_outcome outcome
