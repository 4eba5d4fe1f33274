-- ===== src/Assessments/Webhook.antt =====
-- `_notify_webhook`, `_webhook_secret` and `_record_scan_metrics`.
use security_review_ai.Prelude.{
  String, Option, none, some, List, [], ◌∷◌, ◌++◌, map, length, is_nonempty, if◌then◌else◌,
}
use security_review_ai.Exec.{
  Result, ok, err, other_exception, unsafe_outbound_url, pure, raise, modify, ◌>>◌,
}
use security_review_ai.System.{Action, Delivery, WebhookPayload}
use security_review_ai.Domain.Assessment.{ScanJob, Finding}
use security_review_ai.Security.OutboundUrl.{Network, validate_public_http_url}

-- how `httpx.post` ends: with a response, with an httpx.HTTPError, or with another exception
pub data PostOutcome : Type 0 where
  posted http_error post_raised : PostOutcome

pub record WebhookHost : Type 0 where
  -- SECURITY_REVIEW_WEBHOOK_SECRET
  pub secret : Option String
  -- the text "sha256=…" of the HMAC of the serialized payload under a secret
  pub sign : String → WebhookPayload → String
  pub post : Delivery → PostOutcome

abbrev pub webhook_payload : ScanJob → List Finding → WebhookPayload
webhook_payload job findings = record {
  scan_job_id = job.id;
  agent_type = job.agent_type;
  status = job.status;
  target = job.target;
  error_message = job.error_message;
  finding_count = length findings;
  findings = findings;
}

module _ (net : Network) (hook : WebhookHost) where
  -- `os.getenv(...) or None`, and `if secret:`
  abbrev pub signature_of : Option String → WebhookPayload → Option String
  signature_of none p = none
  signature_of (some key) p = if is_nonempty key then some (hook.sign key p) else none

  abbrev pub delivery : String → ScanJob → List Finding → Delivery
  delivery url job findings = record {
    url = url;
    payload = webhook_payload job findings;
    signature = signature_of hook.secret (webhook_payload job findings);
  }

  abbrev ended : PostOutcome → Action (Unit {0})
  ended posted = pure tt
  ended http_error = pure tt
  ended post_raised = raise other_exception

  -- the request is made, whatever comes of it
  abbrev post_to : Delivery → Action (Unit {0})
  post_to d = modify (λ s. record s { outbox = s.outbox ++ d ∷ [] }) >> ended (hook.post d)

  abbrev if_public : Result String → Delivery → Action (Unit {0})
  if_public (err unsafe_outbound_url) d = pure tt
  if_public (err e) d = raise e
  if_public (ok u) d = post_to d

  abbrev notify_url : Option String → ScanJob → List Finding → Action (Unit {0})
  notify_url none job findings = pure tt
  notify_url (some url) job findings =
      if is_nonempty url
      then if_public (validate_public_http_url net url) (delivery url job findings)
      else pure tt

  unfoldable pub notify_webhook : ScanJob → List Finding → Action (Unit {0})
  notify_webhook job findings = notify_url job.webhook_url job findings

unfoldable pub record_scan_metrics : ScanJob → List Finding → Action (Unit {0})
record_scan_metrics job findings = modify (λ s. record s {
  scan_jobs_total = s.scan_jobs_total ++ (job.agent_type, job.status) ∷ [];
  findings_total = s.findings_total ++ map (λ (f : Finding). f.severity) findings;
})
