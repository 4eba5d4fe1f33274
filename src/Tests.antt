-- ===== src/Tests.antt =====
-- Concrete data, and the theorems at it.
pub mod Accounts
pub mod Plans
pub mod Requests
pub mod Machines
pub mod Repositories
pub mod Codec
pub mod Scanning
pub mod Endpoints
pub mod Agents
pub mod Redis
use security_review_ai.Prelude.{ℕ, String, Bool, true, false, Option, none, some, List, [], ◌∷◌}
use security_review_ai.Exec.{Result, ok}
use security_review_ai.System.{System, Email}
use security_review_ai.Domain.Auth.{Organization, User, UserRole}
use security_review_ai.Domain.Billing.{PlanTier}
use security_review_ai.Domain.Assessment.{
  AgentType, Assessment, AssessmentStatus, Finding, FindingSeverity, ScanJob, ScanStatus,
}
use security_review_ai.Persistence.Assessments.{AssessmentRow, to_row}
use security_review_ai.Security.OutboundUrl.{Network, addresses, SplitUrl}
use security_review_ai.Security.PasswordHasher.{Bytes}
use security_review_ai.Mail.{EmailProvider}
use security_review_ai.Auth.{Claims, TokenCodec, Digests}

abbrev pub acme : Organization
acme = record {
  id = 1;
  name = "Acme";
  plan = PlanTier.free;
  stripe_customer_id = some "cus_1";
  stripe_subscription_id = some "sub_1";
  created_at = 0;
}

abbrev pub ann : User
ann = record {
  id = 1;
  email = "ann@x.io";
  hashed_password = "";
  organization_id = 1;
  role = UserRole.owner;
  created_at = 0;
}

abbrev pub pending_job : ScanJob
pending_job = record {
  id = 4;
  name = "white_box scan";
  agent_type = AgentType.white_box;
  target = some "/srv/app";
  status = ScanStatus.pending;
  started_at = none;
  completed_at = none;
  error_message = none;
  webhook_url = none;
  target_authorization_confirmed = true;
  authorized_by = none;
  authorized_at = none;
  created_at = 5;
}

abbrev pub review : Assessment
review = record {
  id = 7;
  name = "Review";
  description = none;
  status = AssessmentStatus.analyzing;
  organization_id = 1;
  findings = [];
  scan_jobs = pending_job ∷ [];
  repositories = [];
  created_at = 5;
  updated_at = 5;
}

abbrev pub other_review : Assessment
other_review = record review {
  id = 8;
  organization_id = 2;
  scan_jobs = [];
  status = AssessmentStatus.created;
}

abbrev pub sample : System
sample = record {
  organizations = acme ∷ [];
  users = ann ∷ [];
  reset_tokens = [];
  assessments = to_row review ∷ to_row other_review ∷ [];
  audit_log = [];
  outbox = [];
  emails = [];
  stripe_calls = [];
  scan_jobs_total = [];
  findings_total = [];
  removed_clones = [];
}

abbrev pub digests : Digests
digests = record { pbkdf2 = λ password salt n. 1 ∷ 2 ∷ []; hash_token = λ raw. raw }

abbrev pub deaf : TokenCodec
deaf = record { encode = λ c. "token"; decode = λ now t. none }

abbrev pub mail : EmailProvider
mail = record { deliver = λ m. ok tt }

abbrev pub example_url : SplitUrl
example_url = record {
  scheme = "https";
  netloc = "example.org";
  hostname = some "example.org";
  port = none;
  username = none;
  password = none;
}

abbrev pub net : Network
net = record {
  urlsplit = λ url. some example_url;
  getaddrinfo = λ host port. addresses ("93.184.216.34" ∷ []);
  is_global = λ a. true;
}
