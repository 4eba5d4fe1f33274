-- ===== src/Domain/Assessment/Machine.antt =====
-- The transitions of an `Assessment` (domain/assessment/models.py, class Assessment).
use security_review_ai.Prelude.{ℕ, String}
use security_review_ai.Exec.{Result, ok, err, invalid_assessment_state}
use security_review_ai.Domain.Assessment.{Assessment, AssessmentStatus}

abbrev pub rename : String → ℕ → Assessment → Assessment
rename name now a = record a { name = name; updated_at = now }

abbrev set_status : AssessmentStatus → ℕ → Assessment → Result Assessment
set_status s now a = ok (record a { status = s; updated_at = now })

abbrev start_from : AssessmentStatus → ℕ → Assessment → Result Assessment
start_from AssessmentStatus.created now a = set_status AssessmentStatus.analyzing now a
start_from AssessmentStatus.completed now a = set_status AssessmentStatus.analyzing now a
start_from _ now a = err invalid_assessment_state

abbrev pub start_analysis : ℕ → Assessment → Result Assessment
start_analysis now a = start_from a.status now a

abbrev end_from : AssessmentStatus → AssessmentStatus → ℕ → Assessment → Result Assessment
end_from AssessmentStatus.analyzing s now a = set_status s now a
end_from _ s now a = err invalid_assessment_state

abbrev pub complete : ℕ → Assessment → Result Assessment
complete now a = end_from a.status AssessmentStatus.completed now a

abbrev pub fail : ℕ → Assessment → Result Assessment
fail now a = end_from a.status AssessmentStatus.failed now a
