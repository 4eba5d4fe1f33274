-- ===== src/Tests/Machines.antt =====
-- A finding and a repository on their ways.
use security_review_ai.Prelude.{ℕ, ◌≡◌, refl, none, [], ◌∷◌}
use security_review_ai.Domain.Finding.{
  Finding, Severity, Confidence, FindingStatus, confirm, resolve,
}
use security_review_ai.Domain.Finding.Review.{
  Reach, history, here, next, confirms, resolves, resolved_after_confirmed,
}

abbrev found : FindingStatus → Finding
found status = record {
  id = 1;
  title = "SQL injection";
  description = "";
  severity = Severity.high;
  confidence = Confidence.high;
  location = none;
  status = status;
  created_at = 1;
  updated_at = 1;
}

abbrev later : FindingStatus → ℕ → Finding
later status now = record (found status) { updated_at = now }

reviewed : Reach (found FindingStatus.opened) (later FindingStatus.resolved 3)
unfolding confirm resolve
reviewed = next (next here (confirms 2 refl)) (resolves 3 refl)

resolved_after_confirmed_example :
    history reviewed ≡ FindingStatus.resolved ∷ FindingStatus.confirmed ∷ FindingStatus.opened ∷ []
resolved_after_confirmed_example = resolved_after_confirmed reviewed refl refl
