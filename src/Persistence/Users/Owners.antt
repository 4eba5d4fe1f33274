-- ===== src/Persistence/Users/Owners.antt =====
-- The keys of the table `users`, and the owners of an organization under its changes.
use security_review_ai.Prelude.{
  ℕ, ◌+◌, ◌≤◌, count_if-append, ◌==◌, ◌≡◌, refl, String, str_eq, lower, Bool, true, false, ◌&&◌,
  ◌||◌, not, some, List, [], ◌∷◌, ◌++◌, arith, any, keep_if, count_if, ◌∙◌, Bool-cases, inl, inr,
}
use mathlib.Core.Path.{subst}
use security_review_ai.Prelude.Sort.{count_if-sort}
use security_review_ai.Prelude.Unique.{
  Unique, to_number, Unique-append, Unique-keep_if, Unique-update_where, count-update_where_one,
  count-delete_one,
}
use security_review_ai.Exec.{ok}
use security_review_ai.Domain.Auth.{User, UserRole, is_owner}
use security_review_ai.Persistence.Users.{
  user_has_id, user_has_email, in_organization, older_user, stored, list_users_by_organization,
  create_user, update_user_role, update_user_password, delete_user, get_user_by_id,
}

abbrev pub same_id : User → User → Bool
same_id u v = u.id == v.id

abbrev pub same_email : User → User → Bool
same_email u v = str_eq u.email v.email

-- the primary key and the UNIQUE column
pub record HasKeys (t : List User) : Type 0 where
  pub ids : Unique same_id t
  pub emails : Unique same_email t

or_false_left : (a b : Bool) → (a || b) ≡ false → a ≡ false
or_false_left a b h = ground arith

or_false_right : (a b : Bool) → (a || b) ≡ false → b ≡ false
or_false_right a b h = ground arith

appended-HasKeys :
    (u : User) (t : List User)
    → HasKeys t
    → any (user_has_id u.id) t ≡ false
    → any (user_has_email (lower u.email)) t ≡ false
    → HasKeys (t ++ stored u ∷ [])
appended-HasKeys u t h new_id new_email = record {
  ids = Unique-append same_id t (stored u) h.ids new_id;
  emails = Unique-append same_email t (stored u) h.emails new_email;
}

-- A user is stored only where neither the id nor the email is taken, so the keys stay unique.
pub create_user-HasKeys :
    (u : User) (t : List User) {t' : List User} → HasKeys t → create_user u t ≡ ok t' → HasKeys t'
unfolding create_user
create_user-HasKeys u t {t'} h e =
    elim (Bool-cases (any (user_has_id u.id) t || any (user_has_email (lower u.email)) t)) [
      | inl taken ↦ absurd (cc (rw taken at e))
      | inr fresh ↦
          let stored_now : ok (t ++ stored u ∷ []) ≡ ok t' = rw fresh at e in
          subst HasKeys (cc)
            (appended-HasKeys u t h (or_false_left _ _ fresh) (or_false_right _ _ fresh))
    ]

pub update_user_role-HasKeys :
    (k : ℕ) (role : UserRole) (t : List User) → HasKeys t → HasKeys (update_user_role k role t)
unfolding update_user_role
update_user_role-HasKeys k role t h = record {
  ids =
      Unique-update_where same_id (user_has_id k) (λ u. record u { role = role }) (λ u v. refl)
        (λ u v. refl) t h.ids;
  emails =
      Unique-update_where same_email (user_has_id k) (λ u. record u { role = role }) (λ u v. refl)
        (λ u v. refl) t h.emails;
}

pub update_user_password-HasKeys :
    (k : ℕ) (hashed : String) (t : List User)
    → HasKeys t
    → HasKeys (update_user_password k hashed t)
unfolding update_user_password
update_user_password-HasKeys k hashed t h = record {
  ids =
      Unique-update_where same_id (user_has_id k) (λ u. record u { hashed_password = hashed })
        (λ u v. refl) (λ u v. refl) t h.ids;
  emails =
      Unique-update_where same_email (user_has_id k) (λ u. record u { hashed_password = hashed })
        (λ u v. refl) (λ u v. refl) t h.emails;
}

pub delete_user-HasKeys : (k : ℕ) (t : List User) → HasKeys t → HasKeys (delete_user k t)
unfolding delete_user
delete_user-HasKeys k t h = record {
  ids = Unique-keep_if same_id (λ u. not (user_has_id k u)) t h.ids;
  emails = Unique-keep_if same_email (λ u. not (user_has_id k u)) t h.emails;
}

abbrev pub owner_in : ℕ → User → Bool
owner_in org u = in_organization org u && is_owner u

count_if-keep_if :
    (p q : User → Bool) (t : List User) → count_if p (keep_if q t) ≡ count_if (λ u. q u && p u) t
count_if-keep_if p q [] = refl
count_if-keep_if p q (u ∷ t) = ground (arith, count_if-keep_if p q t)

-- the owners in a listing of members are the owners in the table
pub count-list_users :
    (org : ℕ) (t : List User)
    → count_if is_owner (list_users_by_organization org t) ≡ count_if (owner_in org) t
unfolding list_users_by_organization
count-list_users org t =
    count_if-sort older_user is_owner (keep_if (in_organization org) t)
    ∙ count_if-keep_if is_owner (in_organization org) t

one_id : (k : ℕ) (u v : User) → user_has_id k u ≡ true → user_has_id k v ≡ true → same_id u v ≡ true
one_id k u v h e = ground arith

pub count-update_user_role :
    (org k : ℕ) (role : UserRole) (t : List User) (u : User)
    → HasKeys t
    → get_user_by_id k t ≡ some u
    → count_if (owner_in org) (update_user_role k role t) + to_number (owner_in org u)
      ≡ count_if (owner_in org) t + to_number (owner_in org (record u { role = role }))
unfolding update_user_role get_user_by_id
count-update_user_role org k role t u h e =
    count-update_where_one same_id (user_has_id k) (one_id k) (owner_in org)
      (λ u. record u { role = role }) t u h.ids e

pub count-delete_user :
    (org k : ℕ) (t : List User) (u : User)
    → HasKeys t
    → get_user_by_id k t ≡ some u
    → count_if (owner_in org) (delete_user k t) + to_number (owner_in org u)
      ≡ count_if (owner_in org) t
unfolding delete_user get_user_by_id
count-delete_user org k t u h e =
    count-delete_one same_id (user_has_id k) (one_id k) (owner_in org) t u h.ids e

pub count-create_user :
    (p : User → Bool) (u : User) (t : List User) {t' : List User}
    → create_user u t ≡ ok t'
    → count_if p t ≤ count_if p t'
unfolding create_user
count-create_user p u t e = ground (arith, count_if-append p t (stored u ∷ []))
