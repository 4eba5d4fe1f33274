-- ===== src/Persistence/Users/Subscriptions.antt =====
-- What the two UPDATEs of a new plan, `update_organization_plan` and then
-- `update_organization_stripe_ids`, make of every row of the table `organizations`.
use security_review_ai.Prelude.{
  ℕ, ◌==◌, ◌≡◌, refl, String, str_eq, Option, none, some, List, [], ◌∷◌, map, if◌then◌else◌, arith,
}
use security_review_ai.Domain.Auth.{Organization}
use security_review_ai.Domain.Billing.{PlanTier}
use security_review_ai.Persistence.Users.{update_organization_plan, update_organization_stripe_ids}

-- a customer id that another organization gets is lost
abbrev pub unless_taken : Option String → Option String → Option String
unless_taken none mine = mine
unless_taken (some c) none = none
unless_taken (some c) (some mine) = if str_eq mine c then none else some mine

-- a row after the organization k has a new plan, customer and subscription: its own row has these,
-- and any other row only loses the customer id where it is the same
abbrev pub subscribed : ℕ → PlanTier → Option String → Option String → Organization → Organization
subscribed k plan customer subscription o =
    if o.id == k
    then record o {
      plan = plan;
      stripe_customer_id = customer;
      stripe_subscription_id = subscription;
    }
    else record o { stripe_customer_id = unless_taken customer o.stripe_customer_id }

-- the two UPDATEs are one change of every row
pub updates-subscribed :
    (k : ℕ) (plan : PlanTier) (customer subscription : Option String) (t : List Organization)
    → update_organization_stripe_ids k customer subscription (update_organization_plan k plan t)
      ≡ map (subscribed k plan customer subscription) t
unfolding update_organization_stripe_ids update_organization_plan
updates-subscribed k plan none subscription [] = refl
updates-subscribed k plan (some c) subscription [] = refl
updates-subscribed k plan none subscription (o ∷ t) =
    ground (arith, updates-subscribed k plan none subscription t)
updates-subscribed k plan (some c) subscription (o ∷ t) =
    ground (arith, updates-subscribed k plan (some c) subscription t)
