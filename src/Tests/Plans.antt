-- ===== src/Tests/Plans.antt =====
-- Plans and Stripe.
use security_review_ai.Prelude.{map, String, ◌≡◌, refl, inl, none, some, [], ◌∷◌}
use security_review_ai.Exec.{ok}
use security_review_ai.System.{cancel_subscription}
use security_review_ai.Domain.Billing.{PlanTier}
use security_review_ai.Persistence.Users.{
  get_organization, get_organization_id_by_stripe_customer_id, update_organization_stripe_ids,
}
use security_review_ai.Persistence.Users.Subscriptions.{subscribed}
use security_review_ai.Persistence.Users.StripeIds.{customer_routes}
use security_review_ai.Billing.Payment.{StripeEvent, StripeSdk, StripeConfig, stripe_provider}
use security_review_ai.Billing.Service.{change_plan, handle_stripe_webhook}
use security_review_ai.Billing.Service.Changes.{change_plan-paid, change_plan-free}
use security_review_ai.Billing.Service.Webhooks.{
  handle_stripe_webhook-checkout, handle_stripe_webhook-cancelled,
}
use security_review_ai.Tests.{acme, sample}

abbrev sdk : StripeSdk
sdk = record {
  cancel = λ id. ok tt;
  new_session = λ call. ok (record { id = "cs_1"; url = some "https://checkout.x.io" });
  construct_event = λ payload header secret. none;
  parse_uuid = λ t. some 1;
}

abbrev config : StripeConfig
config = record { webhook_secret = some "whsec"; price_id_pro = some "price_1" }

customer_routes_example :
    get_organization_id_by_stripe_customer_id "cus_2"
      (update_organization_stripe_ids 1 (some "cus_2") (some "sub_2") (acme ∷ []))
    ≡ some 1
unfolding get_organization
customer_routes_example = customer_routes 1 "cus_2" (some "sub_2") (acme ∷ []) acme (refl, tt) refl

change_plan-paid_example :
    (change_plan (stripe_provider sdk config) 1 PlanTier.pro "ann@x.io" sample).1.organizations
    ≡ acme ∷ []
change_plan-paid_example = change_plan-paid sdk config 1 PlanTier.pro "ann@x.io" sample (inl refl)

change_plan-free_example :
    let (r, s') = change_plan (stripe_provider sdk config) 1 PlanTier.free "ann@x.io" sample in
    (s'.stripe_calls ≡ cancel_subscription "sub_1" ∷ [])
    × (s'.organizations ≡ map (subscribed 1 PlanTier.free (some "cus_1") none) (acme ∷ []))
unfolding get_organization
change_plan-free_example =
    change_plan-free sdk config 1 "ann@x.io" sample acme "sub_1" refl refl refl

abbrev event_of : String → StripeEvent
event_of kind = record {
  event_type = kind;
  client_reference_id = some "1";
  metadata_plan = some "pro";
  customer = some "cus_1";
  subscription = some "sub_2";
}

abbrev sdk_of : StripeEvent → StripeSdk
sdk_of e = record sdk { construct_event = λ payload header secret. some e }

handle_stripe_webhook-checkout_example :
    handle_stripe_webhook
      (stripe_provider (sdk_of (event_of "checkout.session.completed")) config)
      "{}"
      (some "sig")
      sample
    ≡ (
      ok tt,
      record sample {
        organizations = map (subscribed 1 PlanTier.pro (some "cus_1") (some "sub_2")) (acme ∷ []);
      },
    )
handle_stripe_webhook-checkout_example =
    handle_stripe_webhook-checkout (sdk_of (event_of "checkout.session.completed")) config "{}"
      "sig" "whsec" (event_of "checkout.session.completed") refl refl refl refl sample "1" 1
      PlanTier.pro refl refl refl refl refl

handle_stripe_webhook-cancelled_example :
    handle_stripe_webhook
      (stripe_provider (sdk_of (event_of "customer.subscription.deleted")) config)
      "{}"
      (some "sig")
      sample
    ≡ (
      ok tt,
      record sample {
        organizations = map (subscribed 1 PlanTier.free (some "cus_1") none) (acme ∷ []);
      },
    )
unfolding get_organization_id_by_stripe_customer_id
handle_stripe_webhook-cancelled_example =
    handle_stripe_webhook-cancelled (sdk_of (event_of "customer.subscription.deleted")) config "{}"
      "sig" "whsec" (event_of "customer.subscription.deleted") refl refl refl refl sample "cus_1" 1
      refl refl refl refl
