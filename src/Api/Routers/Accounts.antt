-- ===== src/Api/Routers/Accounts.antt =====
-- api/routers/auth.py and team.py. `base_url` is what get_public_base_url answers.
use security_review_ai.Prelude.{ℕ, String, Option, List, [], ◌∷◌, map}
use security_review_ai.Exec.{
  Error, Result, key_error, invalid_credentials, invalid_reset_token, team_error, last_owner,
  other_exception, pure, gets, lift, or_raise, ◌>>=◌,
}
use security_review_ai.System.{Action, System}
use security_review_ai.Domain.Auth.{
  UserRole, UserResponse, SignupRequest, LoginRequest, ResetPasswordRequest, TokenResponse,
}
use security_review_ai.Security.PasswordHasher.{Bytes}
use security_review_ai.Mail.{EmailProvider}
use security_review_ai.Auth.{TokenCodec, Digests, to_user_response, request_password_reset}
use security_review_ai.Auth
use security_review_ai.Team
use security_review_ai.Api.RateLimiter.{
  Windows, Verdict, allowed, too_many_requests, check, client_ip,
}
use security_review_ai.Api.Routers.Assessments.{managers}
use security_review_ai.Api.Http.{
  Response, failed, Handler, answer, no_handler, with_organization, with_roles, with_user,
}

-- `dependencies=[Depends(enforce_…_rate_limit)]`, with the limiter's windows beside the system
abbrev pub after_verdict :
    {A : Type 0} → Handler A → Verdict × Windows → System → Response A × (Windows × System)
after_verdict h (allowed, w) s = let (r, s') = h s in (r, (w, s'))
after_verdict h (too_many_requests seconds, w) s = (failed 429, (w, s))

abbrev pub limited :
    {A : Type 0}
    → ℕ
    → ℕ
    → ℕ
    → Option String
    → Handler A
    → Windows × System
    → Response A × (Windows × System)
limited max_attempts window_seconds now client h (w, s) =
    after_verdict h (check max_attempts window_seconds (client_ip client) now w) s

abbrev pub on_signup_error : Error → ℕ
on_signup_error invalid_credentials = 409
on_signup_error e = 500

abbrev pub on_login_error : Error → ℕ
on_login_error invalid_credentials = 401
on_login_error e = 500

abbrev pub on_reset_error : Error → ℕ
on_reset_error invalid_reset_token = 400
on_reset_error e = 500

abbrev pub on_invite_error : Error → ℕ
on_invite_error team_error = 409
on_invite_error e = 500

abbrev pub on_member_error : Error → ℕ
on_member_error key_error = 404
on_member_error last_owner = 409
on_member_error e = 500

module _ (codec : TokenCodec) (digests : Digests) (mail : EmailProvider) (now : ℕ) where
  unfoldable pub signup : ℕ → ℕ → Bytes → SignupRequest → Handler TokenResponse
  signup org_id user_id salt payload =
      answer 201 on_signup_error (Auth.signup codec digests org_id user_id salt now payload)

  unfoldable pub login : LoginRequest → Handler TokenResponse
  login payload = answer 200 on_login_error (Auth.login codec digests now payload)

  unfoldable pub forgot_password : Result String → ℕ → String → String → Handler (Unit {0})
  forgot_password base_url token_id raw email =
      answer 200 no_handler
        (lift base_url >>= request_password_reset digests mail token_id raw now email)

  unfoldable pub reset_password : Bytes → ResetPasswordRequest → Handler (Unit {0})
  reset_password salt payload =
      answer 200 on_reset_error (Auth.reset_password digests salt now payload)

  module _ (header : Option String) where
    unfoldable pub get_me : Handler UserResponse
    get_me = with_user codec now header (λ u. answer 200 no_handler (pure (to_user_response u)))

    unfoldable pub list_members : Handler (List UserResponse)
    list_members =
        with_organization codec now header (λ org.
          answer 200 no_handler (gets (λ s. map to_user_response (Team.list_members org s))))

    abbrev invite :
        Result String
        → ℕ
        → ℕ
        → Bytes
        → String
        → String
        → ℕ
        → String
        → UserRole
        → Action UserResponse
    invite base_url user_id token_id salt placeholder raw org email role = do
      url ← lift base_url
      u ←
          Team.invite_member digests mail user_id token_id salt placeholder raw now org email role
            url
      pure (to_user_response u)

    unfoldable pub invite_member :
        Result String → ℕ → ℕ → Bytes → String → String → String → UserRole → Handler UserResponse
    invite_member base_url user_id token_id salt placeholder raw email role =
        with_roles codec now header managers (λ org u.
          answer 201 on_invite_error
            (invite base_url user_id token_id salt placeholder raw org email role))

    -- `_to_response(user)` of None raises AttributeError
    abbrev change_role : ℕ → UserRole → ℕ → Action UserResponse
    change_role user_id role org = do
      found ← Team.update_member_role org user_id role
      u ← or_raise found other_exception
      pure (to_user_response u)

    unfoldable pub change_member_role : ℕ → UserRole → Handler UserResponse
    change_member_role user_id role =
        with_roles codec now header (UserRole.owner ∷ [])
          (λ org u. answer 200 on_member_error (change_role user_id role org))

    unfoldable pub remove_member : ℕ → Handler (Unit {0})
    remove_member user_id =
        with_roles codec now header (UserRole.owner ∷ [])
          (λ org u. answer 204 on_member_error (Team.remove_member org user_id))
