-- ===== src/Scanners/AutoRemediation/Run/Writes.antt =====
-- Which files the agent writes, and which commands it runs.
use security_review_ai.Prelude.{
  zero, ◌≡◌, refl, ap, ◌∙◌, String, eq_refl, true, false, some, if◌then◌else◌,
}
use security_review_ai.Scanners.AutoRemediation.Patch.Unchanged.{all_timed, patch_text-timed}
use security_review_ai.Scanners.AutoRemediation.Run.{
  Host, Written, content_of, store, patch_content, patch_file,
}

module _ (host : Host) where
  -- If every call of requests that the pattern finds in a file has the word timeout among its
  -- arguments, the auto-remediation agent reports the file as not patched and writes nothing.
  pub patch_file-timed :
      (path original : String) (w : Written)
      → content_of host path w ≡ some original
      → all_timed zero original ≡ true
      → patch_file host path w ≡ (false, w)
  unfolding patch_file
  patch_file-timed path original w e h =
      ap (λ o. patch_content host path o w) e
      ∙ ap (λ new. store host path original new w) (patch_text-timed original h)
      ∙ rw (eq_refl original, if◌then◌else◌) refl
