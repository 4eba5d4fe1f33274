-- ===== src/System.antt =====
-- What the services share: the tables of the database, and what has gone out of the process
-- (webhook deliveries, e-mails, calls of Stripe, metric increments, removed clones), oldest first.
use security_review_ai.Prelude.{ℕ, String, Option, List}
use security_review_ai.Exec.{Exec}
use security_review_ai.Domain.Auth.{Organization, User}
use security_review_ai.Domain.Audit.{ConsentAuditEntry}
use security_review_ai.Domain.Assessment.{AgentType, ScanStatus, Finding, FindingSeverity}
use security_review_ai.Persistence.Resets.{ResetToken}
use security_review_ai.Persistence.Assessments.{AssessmentRow}

-- the dictionary that `_notify_webhook` serializes
pub record WebhookPayload : Type 0 where
  pub scan_job_id : ℕ
  pub agent_type : AgentType
  pub status : ScanStatus
  pub target : Option String
  pub error_message : Option String
  pub finding_count : ℕ
  pub findings : List Finding

-- a POST of the program: the URL, the body and the X-Signature-256 header
pub record Delivery : Type 0 where
  pub url : String
  pub payload : WebhookPayload
  pub signature : Option String

pub data Email : Type 0 where
  -- address, link
  password_reset : String → String → Email
  -- address, name of the organization, link
  invite : String → String → String → Email

pub data StripeCall : Type 0 where
  cancel_subscription : String → StripeCall
  -- price, organization, customer or else e-mail address
  create_session : String → ℕ → Option String → String → StripeCall

pub record System : Type 0 where
  pub organizations : List Organization
  pub users : List User
  pub reset_tokens : List ResetToken
  pub assessments : List AssessmentRow
  pub audit_log : List ConsentAuditEntry
  pub outbox : List Delivery
  pub emails : List Email
  pub stripe_calls : List StripeCall
  pub scan_jobs_total : List (AgentType × ScanStatus)
  pub findings_total : List FindingSeverity
  pub removed_clones : List String

abbrev pub Action : Type 0 → Type 0
Action A = Exec System A
