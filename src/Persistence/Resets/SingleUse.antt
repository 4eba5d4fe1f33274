-- ===== src/Persistence/Resets/SingleUse.antt =====
-- When a reset token resolves to its user.
use security_review_ai.Prelude.{
  ℕ, ◌+◌, ◌≡◌, ◌∙◌, refl, String, eq_refl, false, none, some, List, [], ◌∷◌, ◌++◌, arith, any,
  if◌then◌else◌, ltb,
}
use security_review_ai.Exec.{ok}
use security_review_ai.Persistence.Resets.{
  ResetToken, reset_token_ttl, has_hash, new_token, create, resolve_valid_user_id, mark_used,
}

module _ (hash_token : String → String) where
  -- A token that has been marked as used resolves to nobody, at any time, whichever rows the table
  -- holds.
  pub resolve-mark_used :
      (raw : String) (now later : ℕ) (t : List ResetToken)
      → resolve_valid_user_id hash_token raw later (mark_used hash_token raw now t) ≡ none
  unfolding resolve_valid_user_id mark_used
  resolve-mark_used raw now later [] = refl
  resolve-mark_used raw now later (r ∷ t) = ground (arith, resolve-mark_used raw now later t)

  resolve-of_other :
      (raw : String) (now : ℕ) (t : List ResetToken) (r : ResetToken)
      → any (has_hash hash_token raw) t ≡ false
      → resolve_valid_user_id hash_token raw now (t ++ r ∷ [])
        ≡ resolve_valid_user_id hash_token raw now (r ∷ [])
  unfolding resolve_valid_user_id
  resolve-of_other raw now [] r h = refl
  resolve-of_other raw now (x ∷ t) r h = ground (arith, resolve-of_other raw now t r)

  resolve-new_token :
      (token_id user_id : ℕ) (raw : String) (now later : ℕ)
      → resolve_valid_user_id hash_token raw later
          (new_token hash_token token_id user_id raw now ∷ [])
        ≡ (if ltb (now + reset_token_ttl) later then none else some user_id)
  unfolding resolve_valid_user_id
  resolve-new_token token_id user_id raw now later = rw (eq_refl (hash_token raw)) (ground arith)

  create-new_token :
      (token_id user_id : ℕ) (raw : String) (now : ℕ) (t : List ResetToken) {t' : List ResetToken}
      → create hash_token token_id user_id raw now t ≡ ok t'
      → t' ≡ t ++ new_token hash_token token_id user_id raw now ∷ []
  unfolding create
  create-new_token token_id user_id raw now t e = ground arith

  -- A reset token that was created, of a hash that no other has, resolves to its user up to 30
  -- minutes later, and to nobody after that.
  pub resolve-create :
      (token_id user_id : ℕ) (raw : String) (now later : ℕ) (t : List ResetToken)
      {t' : List ResetToken}
      → any (has_hash hash_token raw) t ≡ false
      → create hash_token token_id user_id raw now t ≡ ok t'
      → resolve_valid_user_id hash_token raw later t'
        ≡ (if ltb (now + reset_token_ttl) later then none else some user_id)
  resolve-create token_id user_id raw now later t fresh e =
      rw (create-new_token token_id user_id raw now t e) (
        resolve-of_other raw later t (new_token hash_token token_id user_id raw now) fresh
        ∙ resolve-new_token token_id user_id raw now later)
