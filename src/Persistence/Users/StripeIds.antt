-- ===== src/Persistence/Users/StripeIds.antt =====
-- A Stripe customer id belongs to one organization: `update_organization_stripe_ids` takes it from
-- every other one.
use security_review_ai.Prelude.{
  ℕ, ◌==◌, ◌≡◌, refl, String, eq_refl, Bool, true, Option, some, List, [], ◌∷◌, arith, keep_if,
  count_if, find_first, find_first-passes, Bool-cases, inl, inr,
}
use security_review_ai.Prelude.Unique.{Unique}
use security_review_ai.Domain.Auth.{Organization}
use security_review_ai.Persistence.Users.{
  org_has_id, has_customer, get_organization, update_organization_stripe_ids,
  get_organization_id_by_stripe_customer_id,
}

abbrev pub same_org_id : Organization → Organization → Bool
same_org_id a b = a.id == b.id

module _ (k : ℕ) (c : String) (subscription : Option String) where
  abbrev owned : Organization → Organization
  owned o = record o { stripe_customer_id = some c; stripe_subscription_id = subscription }

  updated : List Organization → List Organization
  updated t = update_organization_stripe_ids k (some c) subscription t

  -- no row that is not the organization's own has the id behind it
  held_by_none_else :
      (t : List Organization)
      → count_if (org_has_id k) t ≡ 0
      → keep_if (has_customer c) (updated t) ≡ []
  unfolding updated update_organization_stripe_ids
  held_by_none_else [] h = refl
  held_by_none_else (o ∷ t) h = ground (arith, held_by_none_else t)

  others_behind :
      (o : Organization) (t : List Organization)
      → org_has_id k o ≡ true
      → count_if (same_org_id o) t ≡ 0
      → count_if (org_has_id k) t ≡ 0
  others_behind o [] e h = refl
  others_behind o (x ∷ t) e h = ground (arith, others_behind o t e)

  held_by_owner :
      (t : List Organization) (o : Organization)
      → Unique same_org_id t
      → find_first (org_has_id k) t ≡ some o
      → keep_if (has_customer c) (updated t) ≡ owned o ∷ []
  unfolding updated update_organization_stripe_ids
  held_by_owner [] o h e = absurd (cc)
  held_by_owner (x ∷ t) o (hx, h) e = elim (Bool-cases (org_has_id k x)) [
    | inl mine ↦ ground (arith, eq_refl c, others_behind x t mine hx, held_by_none_else t)
    | inr other ↦ ground (arith, held_by_owner t o h)
  ]

  -- After a customer id has been set for an organization that exists, in a table of unique ids,
  -- an event for this customer is routed to that organization, whichever organizations had the
  -- customer id before.
  pub customer_routes :
      (t : List Organization) (o : Organization)
      → Unique same_org_id t
      → get_organization k t ≡ some o
      → get_organization_id_by_stripe_customer_id c
          (update_organization_stripe_ids k (some c) subscription t)
        ≡ some k
  unfolding get_organization get_organization_id_by_stripe_customer_id updated
  customer_routes t o h e =
      rw (held_by_owner t o h e) (ground (arith, find_first-passes (org_has_id k) t o e))
