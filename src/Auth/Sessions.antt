-- ===== src/Auth/Sessions.antt =====
-- Accounts and access tokens.
use security_review_ai.Prelude.{
  ℕ, ◌+◌, ◌*◌, ◌/◌, ◌≤◌, ◌<◌, ◌≡◌, refl, String, Bool, true, false, Option, none, some, List, [],
  ◌∷◌, ◌++◌, arith, any, find_first, ltb, lower, if◌then◌else◌, eq_refl, inl, inr, Bool-cases,
}
use security_review_ai.Exec.{Result, ok, err, invalid_credentials, invalid_token}
use security_review_ai.System.{System}
use security_review_ai.Domain.Auth.{User, UserRole, SignupRequest}
use security_review_ai.Persistence.Users.{
  get_user_by_email, get_user_by_id, email_exists, user_has_email, user_has_id, org_has_id, stored,
  create_user, create_organization,
}
use security_review_ai.Security.PasswordHasher.{Bytes, iterations, hash_password}
use security_review_ai.Security.PasswordHasher.RoundTrip.{IsBytes, verify-hash_password}
use security_review_ai.Auth.{
  TokenCodec, Claims, Digests, access_token_ttl, claims_of, issue_token, get_current_user, signup,
  login, new_organization,
}

-- a time cut to its whole second, in microseconds
abbrev pub whole_second : ℕ → ℕ
whole_second t = t / 1000000 * 1000000

-- the claims as PyJWT writes them: `iat` and `exp` become whole seconds
abbrev pub in_seconds : Claims → Claims
in_seconds c = record c { iat = whole_second c.iat; exp = whole_second c.exp }

-- what PyJWT documents: a token that it encoded is decoded to its claims, with the times in whole
-- seconds, from the second of its issue until it expires, and refused before and from then on
pub record IsFaithful (codec : TokenCodec) : Type 0 where
  pub reads :
      (c : Claims) (now : ℕ)
      → whole_second c.iat ≤ now
      → now < whole_second c.exp
      → codec.decode now (codec.encode c) ≡ some (in_seconds c)
  pub premature :
      (c : Claims) (now : ℕ) → now < whole_second c.iat → codec.decode now (codec.encode c) ≡ none
  pub expires :
      (c : Claims) (now : ℕ) → whole_second c.exp ≤ now → codec.decode now (codec.encode c) ≡ none

abbrev pub if_valid : Bool → Option User → Result User
if_valid true (some u) = ok u
if_valid _ _ = err invalid_token

-- 12 hours are whole seconds
second_of_expiry :
    (now : ℕ) → whole_second (now + access_token_ttl) ≡ whole_second now + 43200000000
second_of_expiry now = omega arith

module _ (codec : TokenCodec) (f : IsFaithful codec) where
  decoded :
      (now later : ℕ) (u : User)
      → whole_second now ≤ later
      → codec.decode later (issue_token codec now u).access_token ≡ (
          if ltb later (whole_second now + 43200000000)
          then some (in_seconds (claims_of codec now u))
          else none)
  unfolding issue_token
  decoded now later u h = elim (Bool-cases (ltb later (whole_second now + 43200000000))) [
    | inl valid ↦
        let left : later < whole_second (now + access_token_ttl) =
          rw (second_of_expiry now) (ground arith) in
        ground (arith, f.reads (claims_of codec now u) later h left)
    | inr over ↦
        let past : whole_second (now + access_token_ttl) ≤ later =
          rw (second_of_expiry now) (ground arith) in
        ground (arith, f.expires (claims_of codec now u) later past)
  ]

  -- With a token codec that cuts the times to whole seconds, reads back what it wrote between the
  -- two times and refuses it otherwise, an issued token answers, from the second of its issue on,
  -- with its user, as the table of users has it, until 12 hours after the start of that second,
  -- and with InvalidTokenError after them or when the user is gone; and it changes nothing.
  pub token_lifetime :
      (now later : ℕ) (u : User) (s : System)
      → whole_second now ≤ later
      → get_current_user codec later (issue_token codec now u).access_token s
        ≡ (if_valid (ltb later (whole_second now + 43200000000)) (get_user_by_id u.id s.users), s)
  unfolding get_current_user
  token_lifetime now later u s h = elim (Bool-cases (ltb later (whole_second now + 43200000000))) [
    | inl valid ↦ ground (arith, decoded now later u h)
    | inr over ↦ ground (arith, decoded now later u h)
  ]

find_first-append_new :
    (p : User → Bool) (t : List User) (u : User)
    → find_first p t ≡ none
    → p u ≡ true
    → find_first p (t ++ u ∷ []) ≡ some u
find_first-append_new p [] u e h = ground arith
find_first-append_new p (v ∷ t) u e h = ground (arith, find_first-append_new p t u)

any-of_none : (p : User → Bool) (t : List User) → find_first p t ≡ none → any p t ≡ false
any-of_none p [] e = refl
any-of_none p (u ∷ t) e = ground (arith, any-of_none p t)

-- a user whose stored hash is that of a password logs in with it
pub login_with_own_hash :
    (codec : TokenCodec) (d : Digests) (now : ℕ) (email password : String) (salt : Bytes) (u : User)
    (s : System)
    → get_user_by_email email s.users
      ≡ some (record u { hashed_password = hash_password d.pbkdf2 salt password })
    → IsBytes salt
    → IsBytes (d.pbkdf2 password salt iterations)
    → (login codec d now (record { email = email; password = password }) s).0
      ≡ ok (
          issue_token codec now
            (record u { hashed_password = hash_password d.pbkdf2 salt password }))
unfolding login
login_with_own_hash codec d now email password salt u s e hs hd =
    ground (arith, verify-hash_password d.pbkdf2 salt password hs hd)

module _ (codec : TokenCodec) (d : Digests) where
  -- Nobody can sign up with an email that is registered, in whatever case it is written: the call
  -- raises InvalidCredentialsError and changes nothing.
  signup_taken :
      (org_id user_id now : ℕ) (salt : Bytes) (r : SignupRequest) (s : System) (u : User)
      → get_user_by_email r.email s.users ≡ some u
      → signup codec d org_id user_id salt now r s ≡ (err invalid_credentials, s)
  unfolding signup email_exists get_user_by_email
  signup_taken org_id user_id now salt r s u e = ground arith

  abbrev pub first_owner : ℕ → ℕ → ℕ → Bytes → SignupRequest → User
  first_owner org_id user_id now salt r = record {
    id = user_id;
    email = r.email;
    hashed_password = hash_password d.pbkdf2 salt r.password;
    organization_id = org_id;
    role = UserRole.owner;
    created_at = now;
  }

  signup_state :
      (org_id user_id now : ℕ) (salt : Bytes) (r : SignupRequest) (s : System)
      → get_user_by_email r.email s.users ≡ none
      → any (org_has_id org_id) s.organizations ≡ false
      → any (user_has_id user_id) s.users ≡ false
      → signup codec d org_id user_id salt now r s ≡ (
        ok (issue_token codec now (first_owner org_id user_id now salt r)),
        record s {
          organizations = s.organizations ++ new_organization org_id now r.organization_name ∷ [];
          users = s.users ++ stored (first_owner org_id user_id now salt r) ∷ [];
        },
      )
  unfolding signup email_exists get_user_by_email create_organization create_user
  signup_state org_id user_id now salt r s free new_org new_user =
      ground (arith, any-of_none (user_has_email (lower r.email)) s.users free)

  -- Whoever signs up with an email that is not registered can log in with that email and
  -- password, as the owner of the new organization, where the ids are new and the salt and what
  -- PBKDF2 derives are bytes.
  pub signup_then_login :
      (org_id user_id now at : ℕ) (salt : Bytes) (r : SignupRequest) (s : System)
      → get_user_by_email r.email s.users ≡ none
      → any (org_has_id org_id) s.organizations ≡ false
      → any (user_has_id user_id) s.users ≡ false
      → IsBytes salt
      → IsBytes (d.pbkdf2 r.password salt iterations)
      → let (_, s') = signup codec d org_id user_id salt now r s in
        (login codec d at (record { email = r.email; password = r.password }) s').0
        ≡ ok (issue_token codec at (stored (first_owner org_id user_id now salt r)))
  unfolding get_user_by_email
  signup_then_login org_id user_id now at salt r s free new_org new_user hs hd =
      let u = stored (first_owner org_id user_id now salt r) in
      rw (signup_state org_id user_id now salt r s free new_org new_user) (
        login_with_own_hash codec d at r.email r.password salt u _
          (find_first-append_new (user_has_email (lower r.email)) s.users u free
            (eq_refl (lower r.email)))
          hs hd)
