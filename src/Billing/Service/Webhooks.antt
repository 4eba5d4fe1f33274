-- ===== src/Billing/Service/Webhooks.antt =====
-- What a webhook of Stripe that verifies does.
use security_review_ai.Prelude.{
  ℕ, ◌≡◌, ap, String, true, none, some, is_truthy, is_nonempty, List, map,
}
use security_review_ai.Exec.{Result, ok}
use security_review_ai.System.{System}
use security_review_ai.Domain.Billing.{PlanTier}
use security_review_ai.Persistence.Users.{get_organization_id_by_stripe_customer_id}
use security_review_ai.Persistence.Users.Subscriptions.{subscribed, updates-subscribed}
use security_review_ai.Domain.Auth.{Organization}
use security_review_ai.Billing.Payment.{
  StripeSdk, StripeConfig, StripeEvent, stripe_provider, stripe_handle_webhook, parse_tier,
  plan_value,
}
use security_review_ai.Billing.Service.{handle_stripe_webhook}

abbrev with_organizations : System → List Organization → Result (Unit {0}) × System
with_organizations s t = (ok tt, record s { organizations = t })

module _ (sdk : StripeSdk) (cfg : StripeConfig) (payload header secret : String)
    (event : StripeEvent) (configured : cfg.webhook_secret ≡ some secret)
    (real : is_truthy (some secret) ≡ true) (signed : is_truthy (some header) ≡ true)
    (verified : sdk.construct_event payload header secret ≡ some event) where
  -- Where a webhook secret is set and the signature verifies, the event of a completed checkout
  -- that refers to an organization and a plan that exists gives the organization's rows the plan,
  -- customer and subscription of the event; every other organization only loses a customer id
  -- that is the same, and the rest of the state stays as it is.
  pub handle_stripe_webhook-checkout :
      (s : System) (reference : String) (org : ℕ) (plan : PlanTier)
      → event.event_type ≡ "checkout.session.completed"
      → event.client_reference_id ≡ some reference
      → is_nonempty reference ≡ true
      → sdk.parse_uuid reference ≡ some org
      → parse_tier (plan_value event.metadata_plan) ≡ ok plan
      → handle_stripe_webhook (stripe_provider sdk cfg) payload (some header) s ≡ (
        ok tt,
        record s {
          organizations =
              map (subscribed org plan event.customer event.subscription) s.organizations;
        },
      )
  unfolding handle_stripe_webhook stripe_provider stripe_handle_webhook
  handle_stripe_webhook-checkout s reference org plan kind r full id tier =
      rw (configured, real, signed, verified, kind)
        (rw (r, full, tier, id)
          (ap (with_organizations s)
            (updates-subscribed org plan event.customer event.subscription s.organizations)))

  -- Where a webhook secret is set and the signature verifies, the event of a subscription that
  -- was deleted puts the organization that its customer is routed to on the free plan, with this
  -- customer and no subscription; every other organization only loses a customer id that is the
  -- same, and the rest of the state stays as it is.
  pub handle_stripe_webhook-cancelled :
      (s : System) (customer : String) (org : ℕ)
      → event.event_type ≡ "customer.subscription.deleted"
      → event.customer ≡ some customer
      → is_nonempty customer ≡ true
      → get_organization_id_by_stripe_customer_id customer s.organizations ≡ some org
      → handle_stripe_webhook (stripe_provider sdk cfg) payload (some header) s ≡ (
        ok tt,
        record s {
          organizations = map (subscribed org PlanTier.free (some customer) none) s.organizations;
        },
      )
  unfolding handle_stripe_webhook stripe_provider stripe_handle_webhook
  handle_stripe_webhook-cancelled s customer org kind c full found =
      rw (configured, real, signed, verified, kind)
        (rw (c, full, found)
          (ap (with_organizations s)
            (updates-subscribed org PlanTier.free (some customer) none s.organizations)))
