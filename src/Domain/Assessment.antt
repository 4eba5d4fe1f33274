-- ===== src/Domain/Assessment.antt =====
-- backend/src/security_review/domain/assessment/models.py and enums.py: assessments, their scan
-- jobs, findings and ingested repositories.
pub mod Machine
use security_review_ai.Prelude.{ℕ, String, Bool, Option, List, []}

pub data AssessmentStatus : Type 0 where
  created analyzing completed failed : AssessmentStatus

pub data RepositoryIngestStatus : Type 0 where
  pending cloning ready failed : RepositoryIngestStatus

pub data FindingSeverity : Type 0 where
  low medium high critical : FindingSeverity

pub data AgentType : Type 0 where
  white_box black_box red_team blue_team api_security : AgentType
  cloud_security dependency_security secret_detection trivy auto_remediation : AgentType

-- AgentType.value
abbrev pub agent_value : AgentType → String
agent_value AgentType.white_box = "white_box"
agent_value AgentType.black_box = "black_box"
agent_value AgentType.red_team = "red_team"
agent_value AgentType.blue_team = "blue_team"
agent_value AgentType.api_security = "api_security"
agent_value AgentType.cloud_security = "cloud_security"
agent_value AgentType.dependency_security = "dependency_security"
agent_value AgentType.secret_detection = "secret_detection"
agent_value AgentType.trivy = "trivy"
agent_value AgentType.auto_remediation = "auto_remediation"

pub data ScanStatus : Type 0 where
  pending running completed failed : ScanStatus

pub record Finding : Type 0 where
  pub id : ℕ
  pub title : String
  pub severity : FindingSeverity
  pub description : String
  pub evidence : Option String
  pub remediation : Option String

pub record ScanJob : Type 0 where
  pub id : ℕ
  pub name : String
  pub agent_type : AgentType
  pub target : Option String
  pub status : ScanStatus
  pub started_at : Option ℕ
  pub completed_at : Option ℕ
  pub error_message : Option String
  pub webhook_url : Option String
  pub target_authorization_confirmed : Bool
  pub authorized_by : Option String
  pub authorized_at : Option ℕ
  pub created_at : ℕ

pub record ScanJobCreateRequest : Type 0 where
  pub agent_type : AgentType
  pub target : Option String
  pub repository_id : Option ℕ
  pub webhook_url : Option String
  pub target_authorization_confirmed : Bool

pub record TrivyScanRequest : Type 0 where
  pub target : String
  pub webhook_url : Option String

pub record AssessmentCreateRequest : Type 0 where
  pub name : String
  pub description : Option String

pub record Repository : Type 0 where
  pub id : ℕ
  pub name : String
  pub url : String
  pub branch : String
  pub status : RepositoryIngestStatus
  pub local_path : Option String
  pub commit_hash : Option String
  pub error_message : Option String
  pub ingested_at : ℕ

pub record RepositoryCreateRequest : Type 0 where
  pub name : String
  pub url : String
  pub branch : String

pub record AssessmentResponse : Type 0 where
  pub id : ℕ
  pub name : String
  pub description : Option String
  pub status : AssessmentStatus
  pub organization_id : ℕ
  pub findings : List Finding
  pub scan_jobs : List ScanJob
  pub repositories : List Repository
  pub created_at : ℕ
  pub updated_at : ℕ

pub record Assessment : Type 0 where
  pub id : ℕ
  pub name : String
  pub description : Option String
  pub status : AssessmentStatus
  pub organization_id : ℕ
  pub findings : List Finding
  pub scan_jobs : List ScanJob
  pub repositories : List Repository
  pub created_at : ℕ
  pub updated_at : ℕ

-- `Assessment(...)` with the defaults of the dataclass, at a new id and time
abbrev pub new_assessment : ℕ → ℕ → String → Option String → ℕ → Assessment
new_assessment new_id now name description organization_id = record {
  id = new_id;
  name = name;
  description = description;
  status = AssessmentStatus.created;
  organization_id = organization_id;
  findings = [];
  scan_jobs = [];
  repositories = [];
  created_at = now;
  updated_at = now;
}

abbrev pub to_response : Assessment → AssessmentResponse
to_response a = record {
  id = a.id;
  name = a.name;
  description = a.description;
  status = a.status;
  organization_id = a.organization_id;
  findings = a.findings;
  scan_jobs = a.scan_jobs;
  repositories = a.repositories;
  created_at = a.created_at;
  updated_at = a.updated_at;
}

-- `from_dict`, on the validated response
abbrev pub from_response : AssessmentResponse → Assessment
from_response r = record {
  id = r.id;
  name = r.name;
  description = r.description;
  status = r.status;
  organization_id = r.organization_id;
  findings = r.findings;
  scan_jobs = r.scan_jobs;
  repositories = r.repositories;
  created_at = r.created_at;
  updated_at = r.updated_at;
}
