-- ===== src/Persistence/Users.antt =====
-- sqlite_user_repository.py: the tables `organizations` and `users`. The row conversions are the
-- identity, since a row has exactly the fields of the dataclass.
pub mod Owners
pub mod StripeIds
pub mod Subscriptions
use security_review_ai.Prelude.{
  ℕ, ◌==◌, String, str_eq, lower, Bool, true, false, ◌||◌, ◌&&◌, not, Option, none, some, List, [],
  ◌∷◌, ◌++◌, any, find_first, keep_if, update_where, if◌then◌else◌, leb, is_some,
}
use security_review_ai.Prelude.Sort.{sort}
use security_review_ai.Exec.{Result, ok, err, integrity_error}
use security_review_ai.Domain.Auth.{Organization, User, UserRole}
use security_review_ai.Domain.Billing.{PlanTier}

abbrev pub org_has_id : ℕ → Organization → Bool
org_has_id k o = o.id == k

abbrev pub user_has_id : ℕ → User → Bool
user_has_id k u = u.id == k

abbrev pub user_has_email : String → User → Bool
user_has_email e u = str_eq u.email e

abbrev pub in_organization : ℕ → User → Bool
in_organization k u = u.organization_id == k

-- `id TEXT PRIMARY KEY`
unfoldable pub create_organization : Organization → List Organization → Result (List Organization)
create_organization o t = if any (org_has_id o.id) t then err integrity_error else ok (t ++ o ∷ [])

unfoldable pub get_organization : ℕ → List Organization → Option Organization
get_organization k t = find_first (org_has_id k) t

abbrev pub opt_is : String → Option String → Bool
opt_is s none = false
opt_is s (some t) = str_eq t s

abbrev pub has_customer : String → Organization → Bool
has_customer c o = opt_is c o.stripe_customer_id

-- created_at DESC
abbrev newer_org : Organization → Organization → Bool
newer_org a b = leb b.created_at a.created_at

abbrev first_id : List Organization → Option ℕ
first_id [] = none
first_id (o ∷ t) = some o.id

unfoldable pub get_organization_id_by_stripe_customer_id : String → List Organization → Option ℕ
get_organization_id_by_stripe_customer_id c t =
    first_id (sort newer_org (keep_if (has_customer c) t))

unfoldable pub update_organization_plan : ℕ → PlanTier → List Organization → List Organization
update_organization_plan k plan t = update_where (org_has_id k) (λ o. record o { plan = plan }) t

-- the first UPDATE, which takes the customer id from every other organization
abbrev pub release_customer : ℕ → Option String → List Organization → List Organization
release_customer k none t = t
release_customer k (some c) t =
    update_where (λ o. has_customer c o && not (org_has_id k o))
      (λ o. record o { stripe_customer_id = none }) t

unfoldable pub update_organization_stripe_ids :
    ℕ → Option String → Option String → List Organization → List Organization
update_organization_stripe_ids k customer subscription t =
    update_where (org_has_id k)
      (λ o. record o { stripe_customer_id = customer; stripe_subscription_id = subscription })
      (release_customer k customer t)

-- `id TEXT PRIMARY KEY`, `email TEXT NOT NULL UNIQUE`; the email is stored in lower case
abbrev pub stored : User → User
stored u = record u { email = lower u.email }

unfoldable pub create_user : User → List User → Result (List User)
create_user u t =
    if any (user_has_id u.id) t || any (user_has_email (lower u.email)) t
    then err integrity_error
    else ok (t ++ stored u ∷ [])

unfoldable pub get_user_by_email : String → List User → Option User
get_user_by_email e t = find_first (user_has_email (lower e)) t

unfoldable pub get_user_by_id : ℕ → List User → Option User
get_user_by_id k t = find_first (user_has_id k) t

unfoldable pub email_exists : String → List User → Bool
email_exists e t = is_some (find_first (user_has_email (lower e)) t)

unfoldable pub update_user_password : ℕ → String → List User → List User
update_user_password k hashed t =
    update_where (user_has_id k) (λ u. record u { hashed_password = hashed }) t

-- created_at ASC
abbrev older_user : User → User → Bool
older_user a b = leb a.created_at b.created_at

unfoldable pub list_users_by_organization : ℕ → List User → List User
list_users_by_organization k t = sort older_user (keep_if (in_organization k) t)

unfoldable pub update_user_role : ℕ → UserRole → List User → List User
update_user_role k role t = update_where (user_has_id k) (λ u. record u { role = role }) t

unfoldable pub delete_user : ℕ → List User → List User
delete_user k t = keep_if (λ u. not (user_has_id k u)) t
