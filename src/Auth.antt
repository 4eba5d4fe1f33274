-- ===== src/Auth.antt =====
-- backend/src/security_review/application/auth_service.py. PyJWT, the hash functions and the
-- random tokens are parameters.
pub mod Sessions
pub mod Resets
use Prim.Native.String
use security_review_ai.Prelude.{
  ℕ, ◌+◌, ◌*◌, String, Bool, true, false, not, Option, none, some, List, if◌then◌else◌,
}
use security_review_ai.Exec.{
  Result, ok, err, invalid_credentials, invalid_token, invalid_reset_token, value_error, pure,
  raise, gets, lift, modify, or_raise, raise_if, ◌>>=◌, ◌>>◌,
}
use security_review_ai.System.{Action, System, password_reset}
use security_review_ai.Domain.Auth.{
  User, UserRole, UserResponse, Organization, SignupRequest, LoginRequest, ResetPasswordRequest,
  TokenResponse,
}
use security_review_ai.Domain.Billing.{PlanTier}
use security_review_ai.Persistence.Users.{
  create_organization, create_user, email_exists, get_user_by_email, get_user_by_id,
  update_user_password,
}
use security_review_ai.Persistence.Resets.{create, resolve_valid_user_id, mark_used}
use security_review_ai.Security.PasswordHasher.{Bytes, hash_password, verify_password}
use security_review_ai.Mail.{EmailProvider, send}

-- timedelta(hours=12), in microseconds
abbrev pub access_token_ttl : ℕ
access_token_ttl = 12 * 3600 * 1000000

-- the claims of an access token; `sub` and `org` are the texts of UUIDs, here their values
pub record Claims : Type 0 where
  pub sub : ℕ
  pub org : ℕ
  pub role : UserRole
  pub iat : ℕ
  pub exp : ℕ

-- PyJWT with the program's secret and algorithm: `decode` at a time answers `none` where it raises.
-- What decodes has the claims that the program writes, since only the program knows the secret.
pub record TokenCodec : Type 0 where
  pub encode : Claims → String
  pub decode : ℕ → String → Option Claims

-- hashlib
pub record Digests : Type 0 where
  pub pbkdf2 : String → Bytes → ℕ → Bytes
  pub hash_token : String → String

abbrev pub to_user_response : User → UserResponse
to_user_response u = record {
  id = u.id;
  email = u.email;
  organization_id = u.organization_id;
  role = u.role;
  created_at = u.created_at;
}

abbrev pub put_users : (System → Result (List User)) → Action (Unit {0})
put_users f = do r ← gets f; t ← lift r; modify (λ s. record s { users = t })

abbrev put_organization : Organization → Action (Unit {0})
put_organization o = do
  r ← gets (λ s. create_organization o s.organizations)
  t ← lift r
  modify (λ s. record s { organizations = t })

abbrev pub new_organization : ℕ → ℕ → String → Organization
new_organization new_id now name = record {
  id = new_id;
  name = name;
  plan = PlanTier.free;
  stripe_customer_id = none;
  stripe_subscription_id = none;
  created_at = now;
}

module _ (codec : TokenCodec) where
  abbrev pub claims_of : ℕ → User → Claims
  claims_of now u = record {
    sub = u.id;
    org = u.organization_id;
    role = u.role;
    iat = now;
    exp = now + access_token_ttl;
  }

  unfoldable pub issue_token : ℕ → User → TokenResponse
  issue_token now u = record {
    access_token = codec.encode (claims_of now u);
    user = to_user_response u;
  }

  abbrev owner_of : Option Claims → Action User
  owner_of none = raise invalid_token
  owner_of (some c) = gets (λ s. get_user_by_id c.sub s.users) >>= λ u. or_raise u invalid_token

  unfoldable pub get_current_user : ℕ → String → Action User
  get_current_user now token = owner_of (codec.decode now token)

  module _ (digests : Digests) where
    unfoldable pub signup : ℕ → ℕ → Bytes → ℕ → SignupRequest → Action TokenResponse
    unfolding issue_token
    signup org_id user_id salt now payload = do
      taken ← gets (λ s. email_exists payload.email s.users)
      raise_if taken invalid_credentials
      put_organization (new_organization org_id now payload.organization_name)
      let user : User = record {
        id = user_id;
        email = payload.email;
        hashed_password = hash_password digests.pbkdf2 salt payload.password;
        organization_id = org_id;
        role = UserRole.owner;
        created_at = now;
      }
      put_users (λ s. create_user user s.users)
      pure (issue_token now user)

    abbrev check_password : ℕ → String → User → Action TokenResponse
    check_password now password u = do
      good ← lift (verify_password digests.pbkdf2 password u.hashed_password)
      raise_if (not good) invalid_credentials
      pure (issue_token now u)

    unfoldable pub login : ℕ → LoginRequest → Action TokenResponse
    unfolding issue_token
    login now payload = do
      found ← gets (λ s. get_user_by_email payload.email s.users)
      u ← or_raise found invalid_credentials
      check_password now payload.password u

abbrev pub reset_link : String → String → String
reset_link base_url token = String.◌++◌ base_url (String.◌++◌ "/ui/?reset_token=" token)

module _ (digests : Digests) where
  abbrev pub create_reset_token : ℕ → ℕ → String → ℕ → Action (Unit {0})
  create_reset_token token_id user_id raw now = do
    r ← gets (λ s. create digests.hash_token token_id user_id raw now s.reset_tokens)
    t ← lift r
    modify (λ s. record s { reset_tokens = t })

  -- `raw` is secrets.token_urlsafe(32)
  abbrev send_reset : EmailProvider → ℕ → String → ℕ → String → Option User → Action (Unit {0})
  send_reset mail token_id raw now base_url none = pure tt
  send_reset mail token_id raw now base_url (some u) = do
    create_reset_token token_id u.id raw now
    send mail (password_reset u.email (reset_link base_url raw))

  unfoldable pub request_password_reset :
      EmailProvider → ℕ → String → ℕ → String → String → Action (Unit {0})
  request_password_reset mail token_id raw now email base_url = do
    found ← gets (λ s. get_user_by_email email s.users)
    send_reset mail token_id raw now base_url found

  unfoldable pub reset_password : Bytes → ℕ → ResetPasswordRequest → Action (Unit {0})
  reset_password salt now payload = do
    found ← gets (λ s. resolve_valid_user_id digests.hash_token payload.token now s.reset_tokens)
    user_id ← or_raise found invalid_reset_token
    modify (λ s. record s {
      users =
          update_user_password user_id (hash_password digests.pbkdf2 salt payload.new_password)
            s.users;
    })
    modify (λ s. record s {
      reset_tokens = mark_used digests.hash_token payload.token now s.reset_tokens;
    })
