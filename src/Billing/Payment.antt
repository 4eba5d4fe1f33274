-- ===== src/Billing/Payment.antt =====
-- backend/src/security_review/infrastructure/billing/payment_provider.py. The Stripe SDK is a
-- parameter: what it answers to each call. Each call that changes something at Stripe is recorded.
use security_review_ai.Prelude.{
  ℕ, String, str_eq, Bool, true, false, Option, some, none, ◌∷◌, [], ◌++◌, if◌then◌else◌,
  is_nonempty, is_truthy, strip, lower,
}
use security_review_ai.Exec.{
  Result, ok, err, value_error, payment_provider_error, pure, raise, lift, modify, or_raise,
  raise_if, ◌>>=◌, ◌>>◌,
}
use security_review_ai.System.{Action, StripeCall, cancel_subscription, create_session}
use security_review_ai.Domain.Billing.{PlanTier}

pub record SubscriptionResult : Type 0 where
  pub plan : PlanTier
  pub provider_reference : Option String
  pub checkout_url : Option String
  pub activated_immediately : Bool

pub record WebhookOutcome : Type 0 where
  pub plan : PlanTier
  pub organization_id : Option ℕ
  pub stripe_customer_id : Option String
  pub stripe_subscription_id : Option String

-- the keyword arguments of `start_plan_change`
pub record PlanChange : Type 0 where
  pub organization_id : ℕ
  pub plan : PlanTier
  pub customer_email : String
  pub stripe_customer_id : Option String
  pub stripe_subscription_id : Option String

pub record PaymentProvider : Type 0 where
  pub start_plan_change : PlanChange → Action SubscriptionResult
  pub handle_webhook : String → Option String → Action (Option WebhookOutcome)

-- `reference` is the text f"mock-{organization_id}-{plan.value}"
unfoldable pub mock_provider : (ℕ → PlanTier → String) → PaymentProvider
mock_provider reference = record {
  start_plan_change = λ c. pure (record {
    plan = c.plan;
    provider_reference = some (reference c.organization_id c.plan);
    checkout_url = none;
    activated_immediately = true;
  });
  handle_webhook = λ payload signature. pure none;
}

pub record Session : Type 0 where
  pub id : String
  pub url : Option String

-- `event["type"]` and the fields of `event["data"]["object"]` that are read
pub record StripeEvent : Type 0 where
  pub event_type : String
  pub client_reference_id : Option String
  pub metadata_plan : Option String
  pub customer : Option String
  pub subscription : Option String

-- `construct_event` answers `none` where it raises ValueError or SignatureVerificationError
pub record StripeSdk : Type 0 where
  pub cancel : String → Result (Unit {0})
  pub new_session : StripeCall → Result Session
  pub construct_event : String → String → String → Option StripeEvent
  -- uuid.UUID, which raises ValueError on a malformed text
  pub parse_uuid : String → Option ℕ

-- what __init__ reads from the environment
pub record StripeConfig : Type 0 where
  pub webhook_secret : Option String
  pub price_id_pro : Option String

abbrev price_id : StripeConfig → PlanTier → Option String
price_id cfg PlanTier.pro = cfg.price_id_pro
price_id cfg _ = none

-- PlanTier(value)
abbrev pub parse_tier : String → Result PlanTier
parse_tier v =
    if str_eq v "free"
    then ok PlanTier.free
    else if str_eq v "pro"
    then ok PlanTier.pro
    else if str_eq v "enterprise"
    then ok PlanTier.enterprise
    else err value_error

abbrev log_call : StripeCall → Action (Unit {0})
log_call c = modify (λ s. record s { stripe_calls = s.stripe_calls ++ c ∷ [] })

-- `data.get("metadata") or {}` read at "plan", with the default
abbrev pub plan_value : Option String → String
plan_value none = "pro"
plan_value (some v) = v

module _ (sdk : StripeSdk) (cfg : StripeConfig) where
  abbrev cancel_if_any : Option String → Action (Unit {0})
  cancel_if_any none = pure tt
  cancel_if_any (some id) =
      if is_nonempty id then log_call (cancel_subscription id) >> lift (sdk.cancel id) else pure tt

  abbrev downgrade : PlanChange → Action SubscriptionResult
  downgrade c = do
    cancel_if_any c.stripe_subscription_id
    pure (record {
      plan = PlanTier.free;
      provider_reference = none;
      checkout_url = none;
      activated_immediately = true;
    })

  abbrev checkout : PlanChange → Action SubscriptionResult
  checkout c = do
    raise_if (if is_truthy (price_id cfg c.plan) then false else true) payment_provider_error
    price ← or_raise (price_id cfg c.plan) payment_provider_error
    let call = create_session price c.organization_id c.stripe_customer_id c.customer_email
    log_call call
    session ← lift (sdk.new_session call)
    pure (record {
      plan = c.plan;
      provider_reference = some session.id;
      checkout_url = session.url;
      activated_immediately = false;
    })

  abbrev change_to : PlanTier → PlanChange → Action SubscriptionResult
  change_to PlanTier.free c = downgrade c
  change_to PlanTier.enterprise c = raise payment_provider_error
  change_to PlanTier.pro c = checkout c

  unfoldable pub stripe_start_plan_change : PlanChange → Action SubscriptionResult
  stripe_start_plan_change c = change_to c.plan c

  abbrev completed : StripeEvent → String → Action (Option WebhookOutcome)
  completed e org = do
    plan ← lift (parse_tier (plan_value e.metadata_plan))
    id ← or_raise (sdk.parse_uuid org) value_error
    pure (
        some (record {
          plan = plan;
          organization_id = some id;
          stripe_customer_id = e.customer;
          stripe_subscription_id = e.subscription;
        }))

  abbrev from_reference : StripeEvent → Option String → Action (Option WebhookOutcome)
  from_reference e none = pure none
  from_reference e (some org) = if is_nonempty org then completed e org else pure none

  abbrev dispatch : StripeEvent → Action (Option WebhookOutcome)
  dispatch e =
      if str_eq e.event_type "checkout.session.completed"
      then from_reference e e.client_reference_id
      else if str_eq e.event_type "customer.subscription.deleted"
      then pure (
          some (record {
            plan = PlanTier.free;
            organization_id = none;
            stripe_customer_id = e.customer;
            stripe_subscription_id = none;
          }))
      else pure none

  unfoldable pub stripe_handle_webhook : String → Option String → Action (Option WebhookOutcome)
  stripe_handle_webhook payload signature = do
    raise_if (if is_truthy cfg.webhook_secret then false else true) payment_provider_error
    secret ← or_raise cfg.webhook_secret payment_provider_error
    raise_if (if is_truthy signature then false else true) payment_provider_error
    header ← or_raise signature payment_provider_error
    event ← or_raise (sdk.construct_event payload header secret) payment_provider_error
    dispatch event

  unfoldable pub stripe_provider : PaymentProvider
  unfolding stripe_start_plan_change stripe_handle_webhook
  stripe_provider = record {
    start_plan_change = stripe_start_plan_change;
    handle_webhook = stripe_handle_webhook;
  }

-- get_payment_provider: the name in SECURITY_REVIEW_PAYMENT_PROVIDER, "mock" by default
abbrev provider_name : Option String → String
provider_name none = "mock"
provider_name (some v) = lower (strip v)

unfoldable pub get_payment_provider :
    Option String → PaymentProvider → Result PaymentProvider → Result PaymentProvider
get_payment_provider name mock stripe =
    if str_eq (provider_name name) "stripe" then stripe else ok mock
