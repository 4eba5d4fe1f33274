-- ===== src/Persistence/Resets.antt =====
-- sqlite_password_reset_repository.py: the table `password_reset_tokens`. Times are numbers of
-- microseconds. `hash_token` is SHA-256 of the standard library, a parameter.
pub mod SingleUse
use security_review_ai.Prelude.{
  ℕ, ◌+◌, ◌*◌, ◌==◌, String, str_eq, Bool, ◌&&◌, ◌||◌, not, Option, none, some, List, [], ◌∷◌, ◌++◌,
  any, find_first, update_where, if◌then◌else◌, ltb, is_some,
}
use security_review_ai.Exec.{Result, ok, err, integrity_error}

pub record ResetToken : Type 0 where
  pub id : ℕ
  pub user_id : ℕ
  pub token_hash : String
  pub expires_at : ℕ
  pub used_at : Option ℕ
  pub created_at : ℕ

-- timedelta(minutes=30)
abbrev pub reset_token_ttl : ℕ
reset_token_ttl = 30 * 60 * 1000000

module _ (hash_token : String → String) where
  -- password_hasher.verify_token: a comparison of digests
  abbrev pub verify_token : String → String → Bool
  verify_token raw h = str_eq (hash_token raw) h

  abbrev pub has_hash : String → ResetToken → Bool
  has_hash raw r = str_eq r.token_hash (hash_token raw)

  -- the row that `create` inserts
  abbrev pub new_token : ℕ → ℕ → String → ℕ → ResetToken
  new_token token_id user_id raw now = record {
    id = token_id;
    user_id = user_id;
    token_hash = hash_token raw;
    expires_at = now + reset_token_ttl;
    used_at = none;
    created_at = now;
  }

  unfoldable pub create : ℕ → ℕ → String → ℕ → List ResetToken → Result (List ResetToken)
  create token_id user_id raw now t =
      if any (λ r. r.id == token_id) t
      then err integrity_error
      else ok (t ++ new_token token_id user_id raw now ∷ [])

  -- the rows that the loop does not pass over
  abbrev pub is_valid : String → ℕ → ResetToken → Bool
  is_valid raw now r =
      has_hash raw r
      && not (is_some r.used_at)
      && not (ltb r.expires_at now)
      && verify_token raw (hash_token raw)

  unfoldable pub resolve_valid_user_id : String → ℕ → List ResetToken → Option ℕ
  resolve_valid_user_id raw now [] = none
  resolve_valid_user_id raw now (r ∷ t) =
      let rest = resolve_valid_user_id raw now t in
      if is_valid raw now r then some r.user_id else rest

  unfoldable pub mark_used : String → ℕ → List ResetToken → List ResetToken
  mark_used raw now t = update_where (has_hash raw) (λ r. record r { used_at = some now }) t
