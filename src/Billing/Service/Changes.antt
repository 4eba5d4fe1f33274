-- ===== src/Billing/Service/Changes.antt =====
-- What a change of plan does to an organization, and when.
use security_review_ai.Prelude.{
  ℕ, ◌≡◌, String, true, Option, none, some, [], ◌∷◌, ◌++◌, arith, is_truthy, inl, inr, ◌⊎◌,
  Option-cases, map,
}
use security_review_ai.Exec.{ok, err, Result-cases, payment_provider_error}
use security_review_ai.System.{System, create_session, cancel_subscription}
use security_review_ai.Domain.Billing.{PlanTier}
use security_review_ai.Persistence.Users.{get_organization}
use security_review_ai.Persistence.Users.Subscriptions.{subscribed, updates-subscribed}
use security_review_ai.Domain.Auth.{Organization}
use security_review_ai.Billing.Payment.{
  StripeSdk, StripeConfig, stripe_provider, stripe_start_plan_change, stripe_handle_webhook,
}
use security_review_ai.Billing.Service.{change_plan, handle_stripe_webhook, customer_of}

module _ (sdk : StripeSdk) (cfg : StripeConfig) where
  -- With Stripe, a change to a plan other than the free one changes no organization, whatever
  -- Stripe answers: a plan that is paid for is set by the webhook alone.
  pub change_plan-paid :
      (org : ℕ) (plan : PlanTier) (email : String) (s : System)
      → (plan ≡ PlanTier.pro) ⊎ (plan ≡ PlanTier.enterprise)
      → (change_plan (stripe_provider sdk cfg) org plan email s).1.organizations ≡ s.organizations
  unfolding change_plan stripe_provider stripe_start_plan_change
  change_plan-paid org PlanTier.free email s (inl h) = absurd (cc)
  change_plan-paid org PlanTier.free email s (inr h) = absurd (cc)
  change_plan-paid org PlanTier.enterprise email s h = ground arith
  change_plan-paid org PlanTier.pro email s h = elim (Option-cases cfg.price_id_pro) [
    | inl e ↦ ground arith
    | inr (price, e) ↦
        elim (Result-cases (
          sdk.new_session (
            create_session price org (customer_of (get_organization org s.organizations)) email))) [
              | inl (r, f) ↦ ground arith
              | inr (x, f) ↦ ground arith
            ]
  ]

  -- A change to the free plan cancels at Stripe the subscription of an organization that has one.
  -- Where Stripe does so, the organization's rows have the free plan at once, no subscription and
  -- the customer that was known, and every other organization only loses a customer id that is
  -- the same; where Stripe refuses, no organization changes.
  pub change_plan-free :
      (org : ℕ) (email : String) (s : System) (o : Organization) (subscription : String)
      → get_organization org s.organizations ≡ some o
      → o.stripe_subscription_id ≡ some subscription
      → is_truthy (some subscription) ≡ true
      → let (r, s') = change_plan (stripe_provider sdk cfg) org PlanTier.free email s in
        (s'.stripe_calls ≡ s.stripe_calls ++ cancel_subscription subscription ∷ [])
        × (s'.organizations ≡ elim (sdk.cancel subscription) [
          | ok u ↦ map (subscribed org PlanTier.free o.stripe_customer_id none) s.organizations
          | err e ↦ s.organizations
        ])
  unfolding change_plan stripe_provider stripe_start_plan_change
  change_plan-free org email s o subscription e h t =
      let both = updates-subscribed org PlanTier.free o.stripe_customer_id none s.organizations in
      elim (Result-cases (sdk.cancel subscription)) [
        | inl (u, f) ↦ ground (arith, both)
        | inr (x, f) ↦ ground arith
      ]

  -- Where no signature verifies, a webhook of Stripe raises PaymentProviderError and changes
  -- nothing.
  handle_stripe_webhook-unverified :
      (payload : String) (signature : Option String) (s : System)
      → ((header secret : String) → sdk.construct_event payload header secret ≡ none)
      → handle_stripe_webhook (stripe_provider sdk cfg) payload signature s
        ≡ (err payment_provider_error, s)
  unfolding handle_stripe_webhook stripe_provider stripe_handle_webhook
  handle_stripe_webhook-unverified payload signature s h = elim (Option-cases cfg.webhook_secret) [
    | inl e ↦ ground arith
    | inr (secret, e) ↦ elim (Option-cases signature) [
      | inl f ↦ ground arith
      | inr (header, f) ↦ ground (arith, h header secret)
    ]
  ]
