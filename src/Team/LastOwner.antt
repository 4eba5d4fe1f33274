-- ===== src/Team/LastOwner.antt =====
-- The last owner of an organization can be neither demoted nor removed.
use security_review_ai.Prelude.{
  ℕ, String, sym, ◌⊎◌, ◌≤◌, ◌≡◌, arith, count_if, inl, inr, Option-cases,
}
use mathlib.Core.Path.{subst}
use security_review_ai.Exec.{ok, Result-cases}
use security_review_ai.System.{System}
use security_review_ai.Domain.Auth.{User, UserRole}
use security_review_ai.Persistence.Users.{
  create_user, get_user_by_id, update_user_role, delete_user,
}
use security_review_ai.Persistence.Users.Owners.{
  HasKeys, owner_in, count-list_users, count-update_user_role, count-delete_user, count-create_user,
  create_user-HasKeys, update_user_role-HasKeys, delete_user-HasKeys,
}
use security_review_ai.Team.{owner_count, update_member_role, remove_member, invite_member}
use security_review_ai.Auth.{Digests}
use security_review_ai.Mail.{EmailProvider}
use security_review_ai.Security.PasswordHasher.{Bytes, hash_password}

-- the owners of an organization, as a count over the table
owner_count-eq : (org : ℕ) (s : System) → owner_count org s ≡ count_if (owner_in org) s.users
unfolding owner_count
owner_count-eq org s = count-list_users org s.users

-- what the operations on the team of any organization keep
pub record IsStaffed (o : ℕ) (s : System) : Type 0 where
  pub keys : HasKeys s.users
  pub owned : 1 ≤ owner_count o s

update_member_role-IsStaffed :
    (org user_id o : ℕ) (role : UserRole) (s : System)
    → IsStaffed o s
    → IsStaffed o (update_member_role org user_id role s).1
unfolding update_member_role
update_member_role-IsStaffed org user_id o role s h =
    elim (Option-cases (get_user_by_id user_id s.users)) [
      | inl unknown ↦ rw unknown h
      | inr (u, e) ↦ ground (
        arith,
        update_user_role-HasKeys user_id role s.users h.keys,
        count-update_user_role o user_id role s.users u h.keys e,
        count-update_user_role org user_id role s.users u h.keys e,
        owner_count-eq o s,
        owner_count-eq org s,
        owner_count-eq o (record s { users = update_user_role user_id role s.users }),
      )
    ]

remove_member-IsStaffed :
    (org user_id o : ℕ) (s : System) → IsStaffed o s → IsStaffed o (remove_member org user_id s).1
unfolding remove_member
remove_member-IsStaffed org user_id o s h = elim (Option-cases (get_user_by_id user_id s.users)) [
  | inl unknown ↦ rw unknown h
  | inr (u, e) ↦ ground (
    arith,
    delete_user-HasKeys user_id s.users h.keys,
    count-delete_user o user_id s.users u h.keys e,
    owner_count-eq o s,
    owner_count-eq org s,
    owner_count-eq o (record s { users = delete_user user_id s.users }),
  )
]

create_user-IsStaffed :
    (o : ℕ) (u : User) (s s' : System)
    → create_user u s.users ≡ ok s'.users
    → IsStaffed o s
    → IsStaffed o s'
create_user-IsStaffed o u s s' e h = record {
  keys = create_user-HasKeys u s.users h.keys e;
  owned = ground (
    arith,
    h.owned,
    count-create_user (owner_in o) u s.users e,
    owner_count-eq o s,
    owner_count-eq o s',
  );
}

module _ (d : Digests) (mail : EmailProvider) (user_id token_id : ℕ) (salt : Bytes)
    (placeholder raw : String) (now org : ℕ) (email : String) (role : UserRole) (base_url : String)
    (s : System) where
  abbrev invited : System
  invited =
      (invite_member d mail user_id token_id salt placeholder raw now org email role base_url s).1

  abbrev invited_user : User
  invited_user = record {
    id = user_id;
    email = email;
    hashed_password = hash_password d.pbkdf2 salt placeholder;
    organization_id = org;
    role = role;
    created_at = now;
  }

  -- an invitation leaves the users alone, or adds one
  users-invite_member :
      (invited.users ≡ s.users) ⊎ (create_user invited_user s.users ≡ ok invited.users)
  unfolding invite_member
  users-invite_member = elim (Result-cases (create_user invited_user s.users)) [
    | inl (t, e) ↦ ground arith
    | inr (x, e) ↦ ground arith
  ]

  invite_member-IsStaffed : (o : ℕ) → IsStaffed o s → IsStaffed o invited
  invite_member-IsStaffed o h = elim users-invite_member [
    | inl same ↦ record {
      keys = subst HasKeys (sym same) h.keys;
      owned = ground (arith, h.owned, owner_count-eq o s, owner_count-eq o invited);
    }
    | inr e ↦ create_user-IsStaffed o invited_user s invited e h
  ]

-- a call of one of the operations on a team, whether it succeeds or raises
pub data Step (s s' : System) : Type 0 where
  changes_role :
      (org user_id : ℕ) (role : UserRole)
      → (update_member_role org user_id role s).1 ≡ s'
      → Step s s'
  removes : (org user_id : ℕ) → (remove_member org user_id s).1 ≡ s' → Step s s'
  invites :
      (d : Digests) (mail : EmailProvider) (user_id token_id : ℕ) (salt : Bytes)
      (placeholder raw : String) (now org : ℕ) (email : String) (role : UserRole)
      (base_url : String)
      → invited d mail user_id token_id salt placeholder raw now org email role base_url s ≡ s'
      → Step s s'

pub data Reach (s : System) : System → Type 0 where
  here : Reach s s
  next : {t u : System} → Reach s t → Step t u → Reach s u

Step-IsStaffed : (o : ℕ) {s s' : System} → Step s s' → IsStaffed o s → IsStaffed o s'
Step-IsStaffed o {s} (changes_role org k role e) h =
    subst (IsStaffed o) e (update_member_role-IsStaffed org k o role s h)
Step-IsStaffed o {s} (removes org k e) h =
    subst (IsStaffed o) e (remove_member-IsStaffed org k o s h)
Step-IsStaffed o {s} (invites d mail k i salt p r n org m role b e) h =
    subst (IsStaffed o) e (invite_member-IsStaffed d mail k i salt p r n org m role b s o h)

-- From a table with unique ids and emails, whatever team operations are called for whatever
-- organizations, and whether or not they raise, an organization that has an owner keeps one, and
-- ids and emails stay unique.
pub Reach-IsStaffed : (o : ℕ) {s s' : System} → IsStaffed o s → Reach s s' → IsStaffed o s'
Reach-IsStaffed o h here = h
Reach-IsStaffed o h (next r st) = Step-IsStaffed o st (Reach-IsStaffed o h r)
