-- ===== src/Tests/Accounts.antt =====
-- Accounts, teams, tokens and sessions.
use security_review_ai.Prelude.{◌≡◌, refl, true, none, [], ◌∷◌, arith, if◌then◌else◌, lower}
use security_review_ai.Exec.{ok, err, invalid_reset_token, email_provider_error}
use security_review_ai.System.{System, password_reset}
use security_review_ai.Domain.Auth.{SignupRequest, User, UserRole}
use security_review_ai.Persistence.Users.{
  list_users_by_organization, get_user_by_email, email_exists, stored,
}
use security_review_ai.Persistence.Resets.{resolve_valid_user_id, mark_used, new_token}
use security_review_ai.Persistence.Resets.SingleUse.{resolve-mark_used}
use security_review_ai.Security.PasswordHasher.{hash_password, verify_password}
use security_review_ai.Security.PasswordHasher.RoundTrip.{verify-hash_password}
use security_review_ai.Auth.{login, issue_token, signup, reset_password, request_password_reset}
use security_review_ai.Auth.Sessions.{first_owner, signup_then_login}
use security_review_ai.Auth.Resets.{
  reset_password_once, request_password_reset_uniform, request_password_reset_reveals,
  reset_then_login,
}
use security_review_ai.Team.{owner_count, update_member_role}
use security_review_ai.Team.LastOwner.{IsStaffed, here, next, changes_role, Reach-IsStaffed}
use security_review_ai.Tests.{ann, sample, digests, deaf, mail}

verify-hash_password_example :
    verify_password digests.pbkdf2 "hunter2" (hash_password digests.pbkdf2 (7 ∷ 255 ∷ []) "hunter2")
    ≡ ok true
verify-hash_password_example =
    verify-hash_password digests.pbkdf2 (7 ∷ 255 ∷ []) "hunter2" (omega arith, (omega arith, tt))
      (omega arith, (omega arith, tt))

resolve-mark_used_example :
    resolve_valid_user_id digests.hash_token "raw" 20
      (mark_used digests.hash_token "raw" 10 (new_token digests.hash_token 3 1 "raw" 5 ∷ []))
    ≡ none
resolve-mark_used_example =
    resolve-mark_used digests.hash_token "raw" 10 20 (new_token digests.hash_token 3 1 "raw" 5 ∷ [])

abbrev with_token : System
with_token = record sample { reset_tokens = new_token digests.hash_token 3 1 "raw" 5 ∷ [] }

reset_password_once_example :
    let s' =
      (reset_password digests [] 10
        (record { token = "raw"; new_password = "new" })
        with_token).1 in
    reset_password digests [] 20 (record { token = "raw"; new_password = "again" }) s'
    ≡ (err invalid_reset_token, s')
unfolding reset_password resolve_valid_user_id
reset_password_once_example =
    reset_password_once digests [] [] 10 20 "raw" "new" "again" with_token refl

request_password_reset_uniform_example :
    let (r, s') =
      request_password_reset digests mail 3 "raw" 5 "ann@x.io" "https://app.x.io" sample in
    (r ≡ ok tt) × (s'.users ≡ sample.users)
request_password_reset_uniform_example =
    request_password_reset_uniform digests mail 3 "raw" 5 "ann@x.io" "https://app.x.io" sample
      (λ m. refl) refl

request_password_reset_reveals_example :
    (request_password_reset digests
      (record { deliver = λ m. err email_provider_error })
      3
      "raw"
      5
      "ann@x.io"
      "https://app.x.io"
      sample).0
    ≡ (if email_exists "ann@x.io" sample.users then err email_provider_error else ok tt)
request_password_reset_reveals_example =
    request_password_reset_reveals digests (record { deliver = λ m. err email_provider_error }) 3
      "raw" 5 "ann@x.io" "https://app.x.io" sample (λ m. refl) refl

reset_then_login_example :
    let u : User = record ann { hashed_password = hash_password digests.pbkdf2 (9 ∷ []) "new" } in
    let s₁ =
      (request_password_reset digests mail 3 "raw" 5 "ann@x.io" "https://app.x.io" sample).1 in
    let (r, s') =
      reset_password digests (9 ∷ []) 10 (record { token = "raw"; new_password = "new" }) s₁ in
    (s₁.emails ≡ password_reset "ann@x.io" "https://app.x.io/ui/?reset_token=raw" ∷ [])
    × (r ≡ ok tt)
    × ((login deaf digests 30 (record { email = "ann@x.io"; password = "new" }) s').0
        ≡ ok (issue_token deaf 30 u))
unfolding get_user_by_email lower
reset_then_login_example =
    reset_then_login deaf digests mail 3 "raw" 5 10 30 "ann@x.io" "https://app.x.io" "new" (9 ∷ [])
      sample ann refl (λ m. refl) refl refl (omega arith) (omega arith, tt)
      (omega arith, (omega arith, tt))

abbrev bob : SignupRequest
bob = record { organization_name = "B"; email = "bob@x.io"; password = "p" }

signup_then_login_example :
    (login deaf digests 30
      (record { email = "bob@x.io"; password = "p" })
      (signup deaf digests 2 2 (9 ∷ []) 5 bob sample).1).0
    ≡ ok (issue_token deaf 30 (stored (first_owner deaf digests 2 2 5 (9 ∷ []) bob)))
unfolding get_user_by_email lower
signup_then_login_example =
    signup_then_login deaf digests 2 2 5 30 (9 ∷ []) bob sample refl refl refl (omega arith, tt)
      (omega arith, (omega arith, tt))

ann_IsStaffed : IsStaffed 1 sample
unfolding owner_count list_users_by_organization
ann_IsStaffed = record {
  keys = record { ids = (refl, tt); emails = (refl, tt) };
  owned = omega arith;
}

Reach-IsStaffed_example : IsStaffed 1 (update_member_role 1 1 UserRole.member sample).1
Reach-IsStaffed_example =
    Reach-IsStaffed 1 ann_IsStaffed (next here (changes_role 1 1 UserRole.member refl))
