-- ===== src/Team.antt =====
-- backend/src/security_review/application/team_service.py
pub mod LastOwner
use security_review_ai.Prelude.{
  ℕ, ◌==◌, String, Bool, true, false, ◌&&◌, not, Option, none, some, List, count_if, leb,
  if◌then◌else◌,
}
use security_review_ai.Exec.{
  Result, ok, err, key_error, team_error, last_owner, pure, raise, gets, lift, modify, or_raise,
  raise_if, ◌>>=◌, ◌>>◌,
}
use security_review_ai.System.{Action, System, invite}
use security_review_ai.Domain.Auth.{User, UserRole, role_eq, is_owner, Organization}
use security_review_ai.Persistence.Users.{
  create_user, email_exists, get_organization, get_user_by_id, list_users_by_organization,
  update_user_role, delete_user,
}
use security_review_ai.Security.PasswordHasher.{Bytes, hash_password}
use security_review_ai.Mail.{EmailProvider, send}
use security_review_ai.Auth.{Digests, put_users, create_reset_token, reset_link}

unfoldable pub list_members : ℕ → System → List User
list_members org s = list_users_by_organization org s.users

abbrev organization_name : Option Organization → String
organization_name none = "your organization"
organization_name (some o) = o.name

-- `placeholder` and `raw` are two random tokens
unfoldable pub invite_member :
    Digests
    → EmailProvider
    → ℕ
    → ℕ
    → Bytes
    → String
    → String
    → ℕ
    → ℕ
    → String
    → UserRole
    → String
    → Action User
invite_member digests mail user_id token_id salt placeholder raw now org email role base_url = do
  taken ← gets (λ s. email_exists email s.users)
  raise_if taken team_error
  name ← gets (λ s. organization_name (get_organization org s.organizations))
  let user : User = record {
    id = user_id;
    email = email;
    hashed_password = hash_password digests.pbkdf2 salt placeholder;
    organization_id = org;
    role = role;
    created_at = now;
  }
  put_users (λ s. create_user user s.users)
  create_reset_token digests token_id user_id raw now
  send mail (invite email name (reset_link base_url raw))
  pure user

-- `user is None or user.organization_id != organization_id`
abbrev if_member : ℕ → Option User → Action User
if_member org none = raise key_error
if_member org (some u) = if u.organization_id == org then pure u else raise key_error

-- `_get_member`
abbrev get_member : ℕ → ℕ → Action User
get_member org user_id = gets (λ s. get_user_by_id user_id s.users) >>= if_member org

unfoldable pub owner_count : ℕ → System → ℕ
unfolding list_members
owner_count org s = count_if is_owner (list_members org s)

-- `_require_not_last_owner`
abbrev require_not_last_owner : ℕ → Action (Unit {0})
require_not_last_owner org = do owners ← gets (owner_count org); raise_if (leb owners 1) last_owner

abbrev require_if : Bool → ℕ → Action (Unit {0})
require_if false org = pure tt
require_if true org = require_not_last_owner org

-- the role is changed, and the user read again
unfoldable pub update_member_role : ℕ → ℕ → UserRole → Action (Option User)
update_member_role org user_id new_role = do
  target ← get_member org user_id
  require_if (is_owner target && not (role_eq new_role UserRole.owner)) org
  modify (λ s. record s { users = update_user_role user_id new_role s.users })
  gets (λ s. get_user_by_id user_id s.users)

unfoldable pub remove_member : ℕ → ℕ → Action (Unit {0})
remove_member org user_id = do
  target ← get_member org user_id
  require_if (is_owner target) org
  modify (λ s. record s { users = delete_user user_id s.users })
