-- ===== src/Scanners/Report.antt =====
-- What the agents have in common: the findings that they build, and the walk over the files of a
-- target.
use security_review_ai.Prelude.{
  ℕ, suc, String, is_nonempty, if◌then◌else◌, Bool, true, false, Option, none, some, List, [], ◌∷◌,
  flat_map,
}
use security_review_ai.Domain.Assessment.{Finding, FindingSeverity}

-- `Finding(...)` before it has its id
pub record Draft : Type 0 where
  pub title : String
  pub severity : FindingSeverity
  pub description : String
  pub evidence : String
  pub remediation : String

abbrev pub draft : String → FindingSeverity → String → String → String → Draft
draft title severity description evidence remediation = record {
  title = title;
  severity = severity;
  description = description;
  evidence = evidence;
  remediation = remediation;
}

-- the findings with their ids, where `new_id` is the supply of uuid4
unfoldable pub with_ids : (ℕ → ℕ) → ℕ → List Draft → List Finding
with_ids new_id n [] = []
with_ids new_id n (d ∷ t) =
    (record {
      id = new_id n;
      title = d.title;
      severity = d.severity;
      description = d.description;
      evidence = some d.evidence;
      remediation = some d.remediation;
    })
    ∷ with_ids new_id (suc n) t

-- pathlib and re. `rglob pattern dir` has the paths that the walk of a directory comes to, `read` is
-- `none` where opening or reading raises, and `search pattern ignore_case text` is the text of the
-- first match.
pub record Files : Type 0 where
  pub is_dir : String → Bool
  pub is_file : String → Bool
  pub exists : String → Bool
  pub rglob : String → String → List String
  pub name : String → String
  pub suffix : String → String
  pub read : String → Option String
  -- read_text(errors="ignore").splitlines()
  pub lines : String → Option (List String)
  pub search : String → Bool → String → Option String

-- FindingSeverity.value
abbrev pub severity_value : FindingSeverity → String
severity_value FindingSeverity.low = "low"
severity_value FindingSeverity.medium = "medium"
severity_value FindingSeverity.high = "high"
severity_value FindingSeverity.critical = "critical"

abbrev pub report_if : Bool → Draft → List Draft
report_if true d = d ∷ []
report_if false d = []

-- `if not findings: findings.append(...)`
abbrev pub or_else : Draft → List Draft → List Draft
or_else d [] = d ∷ []
or_else d (x ∷ t) = x ∷ t

-- a target that is `None` or empty has no findings
abbrev pub for_target : (String → List Draft) → Option String → List Draft
for_target f none = []
for_target f (some t) = if is_nonempty t then f t else []

module _ (fs : Files) where
  abbrev pub matches : String → Bool → String → Bool
  matches pattern ignore_case text = elim (fs.search pattern ignore_case text) [
    | none ↦ false
    | some m ↦ true
  ]

  abbrev pub check_file : (String → String → List Draft) → String → List Draft
  check_file check path = elim (fs.read path) [ none ↦ [] | some content ↦ check path content ]

  -- for path in Path(target).rglob(pattern), where a file that cannot be read is passed over
  unfoldable pub each_file : String → (String → String → List Draft) → String → List Draft
  each_file pattern check target = elim (fs.is_dir target) [
    | true ↦ flat_map (check_file check) (fs.rglob pattern target)
    | false ↦ []
  ]
