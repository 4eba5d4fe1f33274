-- ===== src/Domain/Finding.antt =====
-- backend/src/security_review/domain/finding: a finding under review and its transitions.
pub mod Review
use security_review_ai.Prelude.{ℕ, String, Option}
use security_review_ai.Exec.{Result, ok, err, invalid_finding_state}

pub data Severity : Type 0 where
  low medium high critical : Severity

pub data Confidence : Type 0 where
  low medium high : Confidence

pub data FindingStatus : Type 0 where
  opened confirmed resolved false_positive : FindingStatus

pub record Location : Type 0 where
  pub file_path : String
  pub line : ℕ
  pub column : ℕ

pub record Finding : Type 0 where
  pub id : ℕ
  pub title : String
  pub description : String
  pub severity : Severity
  pub confidence : Confidence
  pub location : Option Location
  pub status : FindingStatus
  pub created_at : ℕ
  pub updated_at : ℕ

-- the assignment of a status, and `_touch`
abbrev become : FindingStatus → ℕ → Finding → Result Finding
become s now f = ok (record f { status = s; updated_at = now })

abbrev from_opened : FindingStatus → FindingStatus → ℕ → Finding → Result Finding
from_opened FindingStatus.opened s now f = become s now f
from_opened _ s now f = err invalid_finding_state

abbrev from_confirmed : FindingStatus → FindingStatus → ℕ → Finding → Result Finding
from_confirmed FindingStatus.confirmed s now f = become s now f
from_confirmed _ s now f = err invalid_finding_state

unfoldable pub confirm : ℕ → Finding → Result Finding
confirm now f = from_opened f.status FindingStatus.confirmed now f

unfoldable pub resolve : ℕ → Finding → Result Finding
resolve now f = from_confirmed f.status FindingStatus.resolved now f

unfoldable pub mark_false_positive : ℕ → Finding → Result Finding
mark_false_positive now f = from_opened f.status FindingStatus.false_positive now f
