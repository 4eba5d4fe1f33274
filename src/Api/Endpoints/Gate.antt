-- ===== src/Api/Endpoints/Gate.antt =====
-- Who gets through to the services.
use security_review_ai.Prelude.{ℕ, ◌≡◌, refl, String, Bool, true, false, Option, List, any, arith}
use security_review_ai.System.{System}
use security_review_ai.Domain.Auth.{User, UserRole, role_eq}
use security_review_ai.Auth.{TokenCodec}
use security_review_ai.Api.Dependencies.{
  resolved, http_error, current_user, current_organization_id, require_roles,
}
use security_review_ai.Api.Http.{Handler, with_user, with_organization, with_roles}
use security_review_ai.Api.Routers.Assessments
use security_review_ai.Api.Routers.Accounts
use security_review_ai.Api.Routers.Plans
use security_review_ai.Api.Endpoints.{Request, Host, serve, status_only}

module _ (codec : TokenCodec) (now : ℕ) (auth : Option String) where
  organization_refused :
      (s : System) (status : ℕ)
      → current_user codec now auth s ≡ http_error status
      → current_organization_id codec now auth s ≡ http_error status
  unfolding current_organization_id
  organization_refused s status e = ground arith

  organization_resolved :
      (s : System) (u : User)
      → current_user codec now auth s ≡ resolved u
      → current_organization_id codec now auth s ≡ resolved u.organization_id
  unfolding current_organization_id
  organization_resolved s u e = ground arith

module _ (codec : TokenCodec) (now : ℕ) (auth : Option String) {A : Type 0} where
  refused_user :
      (f : User → Handler A) (s : System) (status : ℕ)
      → current_user codec now auth s ≡ http_error status
      → status_only (with_user codec now auth f) s ≡ (status, s)
  refused_user f s status e = rw e refl

  refused_organization :
      (f : ℕ → Handler A) (s : System) (status : ℕ)
      → current_user codec now auth s ≡ http_error status
      → status_only (with_organization codec now auth f) s ≡ (status, s)
  refused_organization f s status e = rw (organization_refused codec now auth s status e) refl

  refused_roles :
      (allowed : List UserRole) (f : ℕ → User → Handler A) (s : System) (status : ℕ)
      → current_user codec now auth s ≡ http_error status
      → status_only (with_roles codec now auth allowed f) s ≡ (status, s)
  refused_roles allowed f s status e = rw (organization_refused codec now auth s status e) refl

  forbidden_roles :
      (allowed : List UserRole) (f : ℕ → User → Handler A) (s : System) (u : User)
      → current_user codec now auth s ≡ resolved u
      → any (λ r. role_eq u.role r) allowed ≡ false
      → status_only (with_roles codec now auth allowed f) s ≡ (403, s)
  unfolding require_roles
  forbidden_roles allowed f s u e p =
      rw (organization_resolved codec now auth s u e) (rw e (rw p refl))

-- For every request of an endpoint that needs a bearer token, if the token does not resolve to a
-- user, the answer has the status code of that refusal (401 for a missing or invalid token) and
-- the state of the system is unchanged.
pub serve-refused :
    (h : Host) (now : ℕ) (auth : Option String) (r : Request) (s : System) (status : ℕ)
    → current_user h.codec now auth s ≡ http_error status
    → serve h now auth r s ≡ (status, s)
unfolding serve Assessments.create_assessment Assessments.get_assessment
    Assessments.list_assessments Assessments.delete_assessment Assessments.ingest_repository
    Assessments.list_repositories Assessments.get_repository Assessments.delete_repository
    Assessments.create_scan_job Assessments.list_scan_jobs Assessments.list_assessment_findings
    Assessments.get_assessment_report Assessments.get_scan_job Assessments.stream_scan_job_status
    Assessments.run_trivy_scan Assessments.run_trivy_scan_async Accounts.get_me
    Accounts.list_members Accounts.invite_member Accounts.change_member_role Accounts.remove_member
    Plans.get_usage Plans.subscribe Plans.get_consent_audit_log
serve-refused h now auth (Request.create_assessment i q) s status e =
    refused_organization h.codec now auth _ s status e
serve-refused h now auth (Request.get_assessment i) s status e =
    refused_organization h.codec now auth _ s status e
serve-refused h now auth (Request.list_assessments l f) s status e =
    refused_organization h.codec now auth _ s status e
serve-refused h now auth (Request.delete_assessment i) s status e =
    refused_roles h.codec now auth _ _ s status e
serve-refused h now auth (Request.ingest_repository n i q) s status e =
    refused_organization h.codec now auth _ s status e
serve-refused h now auth (Request.list_repositories i) s status e =
    refused_organization h.codec now auth _ s status e
serve-refused h now auth (Request.get_repository i k) s status e =
    refused_organization h.codec now auth _ s status e
serve-refused h now auth (Request.delete_repository i k) s status e =
    refused_roles h.codec now auth _ _ s status e
serve-refused h now auth (Request.create_scan_job n t l i q) s status e =
    refused_organization h.codec now auth _ s status e
serve-refused h now auth (Request.list_scan_jobs i) s status e =
    refused_organization h.codec now auth _ s status e
serve-refused h now auth (Request.list_findings i) s status e =
    refused_organization h.codec now auth _ s status e
serve-refused h now auth (Request.get_report i) s status e =
    refused_organization h.codec now auth _ s status e
serve-refused h now auth (Request.get_scan_job i k) s status e =
    refused_organization h.codec now auth _ s status e
serve-refused h now auth (Request.stream_scan_job_status i k) s status e =
    refused_organization h.codec now auth _ s status e
serve-refused h now auth (Request.run_trivy_scan n l i q) s status e =
    refused_organization h.codec now auth _ s status e
serve-refused h now auth (Request.run_trivy_scan_async n t l i q) s status e =
    refused_organization h.codec now auth _ s status e
serve-refused h now auth Request.get_me s status e = refused_user h.codec now auth _ s status e
serve-refused h now auth Request.list_members s status e =
    refused_organization h.codec now auth _ s status e
serve-refused h now auth (Request.invite_member i t salt q raw email role) s status e =
    refused_roles h.codec now auth _ _ s status e
serve-refused h now auth (Request.change_member_role i role) s status e =
    refused_roles h.codec now auth _ _ s status e
serve-refused h now auth (Request.remove_member i) s status e =
    refused_roles h.codec now auth _ _ s status e
serve-refused h now auth Request.get_usage s status e =
    refused_organization h.codec now auth _ s status e
serve-refused h now auth (Request.subscribe plan) s status e =
    refused_roles h.codec now auth _ _ s status e
serve-refused h now auth Request.get_consent_log s status e =
    refused_organization h.codec now auth _ s status e

abbrev pub is_owner_role : UserRole → Bool
is_owner_role UserRole.owner = true
is_owner_role _ = false

abbrev pub is_manager_role : UserRole → Bool
is_manager_role UserRole.member = false
is_manager_role _ = true

-- the roles that a request is open to
abbrev pub permits : Request → UserRole → Bool
permits (Request.change_member_role i role) u = is_owner_role u
permits (Request.remove_member i) u = is_owner_role u
permits (Request.subscribe plan) u = is_owner_role u
permits (Request.delete_assessment i) u = is_manager_role u
permits (Request.delete_repository i k) u = is_manager_role u
permits (Request.invite_member i t salt p raw email role) u = is_manager_role u
permits r u = true

role_cases :
    (u : User)
    → is_manager_role u.role ≡ false
    → any (λ r. role_eq u.role r) Assessments.managers ≡ false
role_cases u h = ground arith

-- If the bearer token resolves to a user whose role a request is not open to (changes of roles,
-- removals of members and subscriptions are for owners; deletions and invitations for owners and
-- admins), the answer is a 403 and the state of the system is unchanged.
pub serve-forbidden :
    (h : Host) (now : ℕ) (auth : Option String) (r : Request) (s : System) (u : User)
    → current_user h.codec now auth s ≡ resolved u
    → permits r u.role ≡ false
    → serve h now auth r s ≡ (403, s)
unfolding serve Assessments.delete_assessment Assessments.delete_repository Accounts.invite_member
    Accounts.change_member_role Accounts.remove_member Plans.subscribe
serve-forbidden h now auth (Request.create_assessment i q) s u e p = absurd (cc)
serve-forbidden h now auth (Request.get_assessment i) s u e p = absurd (cc)
serve-forbidden h now auth (Request.list_assessments l f) s u e p = absurd (cc)
serve-forbidden h now auth (Request.delete_assessment i) s u e p =
    forbidden_roles h.codec now auth _ _ s u e (ground arith)
serve-forbidden h now auth (Request.ingest_repository n i q) s u e p = absurd (cc)
serve-forbidden h now auth (Request.list_repositories i) s u e p = absurd (cc)
serve-forbidden h now auth (Request.get_repository i k) s u e p = absurd (cc)
serve-forbidden h now auth (Request.delete_repository i k) s u e p =
    forbidden_roles h.codec now auth _ _ s u e (ground arith)
serve-forbidden h now auth (Request.create_scan_job n t l i q) s u e p = absurd (cc)
serve-forbidden h now auth (Request.list_scan_jobs i) s u e p = absurd (cc)
serve-forbidden h now auth (Request.list_findings i) s u e p = absurd (cc)
serve-forbidden h now auth (Request.get_report i) s u e p = absurd (cc)
serve-forbidden h now auth (Request.get_scan_job i k) s u e p = absurd (cc)
serve-forbidden h now auth (Request.stream_scan_job_status i k) s u e p = absurd (cc)
serve-forbidden h now auth (Request.run_trivy_scan n l i q) s u e p = absurd (cc)
serve-forbidden h now auth (Request.run_trivy_scan_async n t l i q) s u e p = absurd (cc)
serve-forbidden h now auth Request.get_me s u e p = absurd (cc)
serve-forbidden h now auth Request.list_members s u e p = absurd (cc)
serve-forbidden h now auth (Request.invite_member i t salt q raw email role) s u e p =
    forbidden_roles h.codec now auth _ _ s u e (ground arith)
serve-forbidden h now auth (Request.change_member_role i role) s u e p =
    forbidden_roles h.codec now auth _ _ s u e (ground arith)
serve-forbidden h now auth (Request.remove_member i) s u e p =
    forbidden_roles h.codec now auth _ _ s u e (ground arith)
serve-forbidden h now auth Request.get_usage s u e p = absurd (cc)
serve-forbidden h now auth (Request.subscribe plan) s u e p =
    forbidden_roles h.codec now auth _ _ s u e (ground arith)
serve-forbidden h now auth Request.get_consent_log s u e p = absurd (cc)
