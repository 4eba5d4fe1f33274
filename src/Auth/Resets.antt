-- ===== src/Auth/Resets.antt =====
-- The password reset from the request to the login.
use Prim.Native.String
use security_review_ai.Prelude.{
  ℕ, ◌+◌, ◌++◌, ◌≤◌, ◌==◌, ◌≡◌, refl, ◌∙◌, String, false, none, some, List, arith, any,
  if◌then◌else◌, Option-cases, inl, inr, lower, find_first, update_where, [], ◌∷◌,
}
use security_review_ai.Exec.{ok, err, invalid_reset_token, email_provider_error}
use security_review_ai.System.{System, Email, password_reset}
use security_review_ai.Domain.Auth.{User}
use security_review_ai.Persistence.Users.{
  get_user_by_email, email_exists, update_user_password, user_has_id, user_has_email,
}
use security_review_ai.Persistence.Resets.{
  create, has_hash, reset_token_ttl, resolve_valid_user_id, mark_used,
}
use security_review_ai.Persistence.Resets.SingleUse.{resolve-mark_used, resolve-create}
use security_review_ai.Security.PasswordHasher.{Bytes, iterations, hash_password}
use security_review_ai.Security.PasswordHasher.RoundTrip.{IsBytes}
use security_review_ai.Mail.{EmailProvider}
use security_review_ai.Auth.Sessions.{login_with_own_hash}
use security_review_ai.Auth.{
  Digests, TokenCodec, request_password_reset, reset_password, login, issue_token, reset_link,
}

module _ (d : Digests) where
  -- A token that has reset a password cannot reset one again: a later call with the same token
  -- raises InvalidResetTokenError and changes nothing.
  pub reset_password_once :
      (salt salt' : Bytes) (now later : ℕ) (token password password' : String) (s : System)
      → (reset_password d salt now (record { token = token; new_password = password }) s).0 ≡ ok tt
      → let s' =
          (reset_password d salt now (record { token = token; new_password = password }) s).1 in
        reset_password d salt' later (record { token = token; new_password = password' }) s'
        ≡ (err invalid_reset_token, s')
  unfolding reset_password
  reset_password_once salt salt' now later token password password' s h =
      ground (arith, resolve-mark_used d.hash_token token now later s.reset_tokens)

  -- A request for an email that is not registered does nothing, and returns as it does otherwise.
  pub request_password_reset_unknown :
      (mail : EmailProvider) (token_id : ℕ) (raw : String) (now : ℕ) (email base_url : String)
      (s : System)
      → get_user_by_email email s.users ≡ none
      → request_password_reset d mail token_id raw now email base_url s ≡ (ok tt, s)
  unfolding request_password_reset
  request_password_reset_unknown mail token_id raw now email base_url s h = ground arith

  -- Where e-mails can be delivered and the token's id is new, a request for a reset returns in
  -- the same way for every email, registered or not, and changes no user.
  pub request_password_reset_uniform :
      (mail : EmailProvider) (token_id : ℕ) (raw : String) (now : ℕ) (email base_url : String)
      (s : System)
      → ((m : Email) → mail.deliver m ≡ ok tt)
      → any (λ r. r.id == token_id) s.reset_tokens ≡ false
      → let (r, s') = request_password_reset d mail token_id raw now email base_url s in
        (r ≡ ok tt) × (s'.users ≡ s.users)
  unfolding request_password_reset create
  request_password_reset_uniform mail token_id raw now email base_url s delivers new =
      elim (Option-cases (get_user_by_email email s.users)) [
        | inl unknown ↦ ground arith
        | inr (u, e) ↦ ground (arith, delivers (password_reset u.email (reset_link base_url raw)))
      ]

  -- Where the mail server refuses and the token's id is new, a request for a reset raises for a
  -- registered email, and does not for one that is not registered: the answer then tells which
  -- emails have accounts.
  pub request_password_reset_reveals :
      (mail : EmailProvider) (token_id : ℕ) (raw : String) (now : ℕ) (email base_url : String)
      (s : System)
      → ((m : Email) → mail.deliver m ≡ err email_provider_error)
      → any (λ r. r.id == token_id) s.reset_tokens ≡ false
      → (request_password_reset d mail token_id raw now email base_url s).0
        ≡ (if email_exists email s.users then err email_provider_error else ok tt)
  unfolding request_password_reset create email_exists get_user_by_email
  request_password_reset_reveals mail token_id raw now email base_url s refuses new =
      elim (Option-cases (find_first (user_has_email (lower email)) s.users)) [
        | inl unknown ↦ ground arith
        | inr (u, e) ↦ ground (arith, refuses (password_reset u.email (reset_link base_url raw)))
      ]

find_first-update_password :
    (email hashed : String) (t : List User) (u : User)
    → find_first (user_has_email email) t ≡ some u
    → find_first
        (user_has_email email)
        (update_where (user_has_id u.id) (λ v. record v { hashed_password = hashed }) t)
      ≡ some (record u { hashed_password = hashed })
find_first-update_password email hashed [] u e = absurd (cc)
find_first-update_password email hashed (v ∷ t) u e =
    ground (arith, find_first-update_password email hashed t u)

get_user_by_email-update_user_password :
    (email hashed : String) (t : List User) (u : User)
    → get_user_by_email email t ≡ some u
    → get_user_by_email email (update_user_password u.id hashed t)
      ≡ some (record u { hashed_password = hashed })
unfolding get_user_by_email update_user_password
get_user_by_email-update_user_password email hashed t u e =
    find_first-update_password (lower email) hashed t u e

module _ (codec : TokenCodec) (d : Digests) (mail : EmailProvider) where
  -- the calls of a user who forgot a password: the request, then the reset
  abbrev requested : ℕ → String → ℕ → String → String → System → System
  requested token_id raw now email base_url s =
      (request_password_reset d mail token_id raw now email base_url s).1

  -- what the request leaves behind
  requested_state :
      (token_id : ℕ) (raw : String) (now : ℕ) (email base_url : String) (s : System) (u : User)
      → get_user_by_email email s.users ≡ some u
      → ((m : Email) → mail.deliver m ≡ ok tt)
      → any (λ r. r.id == token_id) s.reset_tokens ≡ false
      → let s' = requested token_id raw now email base_url s in
        (s'.users ≡ s.users)
        × (create d.hash_token token_id u.id raw now s.reset_tokens ≡ ok s'.reset_tokens)
        × (s'.emails
            ≡ s.emails
              ++ password_reset u.email (String.◌++◌ base_url (String.◌++◌ "/ui/?reset_token=" raw))
                ∷ [])
  unfolding request_password_reset create
  requested_state token_id raw now email base_url s u e delivers new =
      ground (arith, delivers (password_reset u.email (reset_link base_url raw)))

  -- A registered user who asks for a reset is sent one e-mail, to the user's address, with a link
  -- that ends in the token, and whoever resets the password with this token within 30 minutes can
  -- log in with the new one, as long as e-mails are delivered, the token's id and hash are new,
  -- and the salt and what PBKDF2 derives are bytes.
  pub reset_then_login :
      (token_id : ℕ) (raw : String) (now later at : ℕ) (email base_url password : String)
      (salt : Bytes) (s : System) (u : User)
      → get_user_by_email email s.users ≡ some u
      → ((m : Email) → mail.deliver m ≡ ok tt)
      → any (λ r. r.id == token_id) s.reset_tokens ≡ false
      → any (has_hash d.hash_token raw) s.reset_tokens ≡ false
      → later ≤ now + reset_token_ttl
      → IsBytes salt
      → IsBytes (d.pbkdf2 password salt iterations)
      → let s₁ = requested token_id raw now email base_url s in
        let (r, s') =
          reset_password d salt later (record { token = raw; new_password = password }) s₁ in
        (s₁.emails
          ≡ s.emails
            ++ password_reset u.email (String.◌++◌ base_url (String.◌++◌ "/ui/?reset_token=" raw))
              ∷ [])
        × (r ≡ ok tt)
        × ((login codec d at (record { email = email; password = password }) s').0
            ≡ ok (
                issue_token codec at
                  (record u { hashed_password = hash_password d.pbkdf2 salt password })))
  unfolding reset_password
  reset_then_login token_id raw now later at email base_url password salt s u e delivers new fresh
        in_time hs hd =
      let s₁ = requested token_id raw now email base_url s in
      let (same, made, sent) = requested_state token_id raw now email base_url s u e delivers new in
      let hashed = hash_password d.pbkdf2 salt password in
      let resolves : resolve_valid_user_id d.hash_token raw later s₁.reset_tokens ≡ some u.id =
        resolve-create d.hash_token token_id u.id raw now later s.reset_tokens fresh made
        ∙ ground arith in
      let s₂ : System = record s₁ {
        users = update_user_password u.id hashed s₁.users;
        reset_tokens = mark_used d.hash_token raw later s₁.reset_tokens;
      } in
      let found : get_user_by_email email s₂.users ≡ some (record u { hashed_password = hashed }) =
        rw same (get_user_by_email-update_user_password email hashed s.users u e) in
      rw resolves (sent, refl, login_with_own_hash codec d at email password salt u s₂ found hs hd)
