-- ===== src/Lib.antt =====
-- A model of the backend of the security review platform (backend/src/security_review), with the
-- theorems that make it correct.
--
-- The program is a FastAPI service. Organizations sign up, invite members, create assessments,
-- attach repositories and run scan jobs on them; agents produce findings; plans limit how many
-- assessments and scan jobs an organization has. The services of application/ hold the logic and
-- call the repositories of infrastructure/persistence, which are tables of a SQL database.
--
-- How it is modelled. `System` holds the tables and, oldest first, what has gone out of the process:
-- webhook deliveries, e-mails, calls of Stripe, increments of metrics, removed clones. A method of a
-- service is an `Action`, a function from a state to a result and a state (Exec.antt): an exception
-- is the value `err e`, and what was written before it stays written, since each statement commits by
-- itself. Ids and random tokens are arguments, and so are times, in microseconds. Texts of messages
-- are left out. Rows are kept in the order of insertion. One request runs after the other.
--
-- Files and the code that they model (paths below backend/src/security_review):
--   Domain/Auth, Domain/Billing, Domain/Audit   domain/auth, domain/billing, domain/audit
--   Domain/Assessment, its child Machine        domain/assessment
--   Domain/Finding, Domain/Repository           domain/finding, domain/repository
--   Persistence/Users                           sqlite_user_repository.py
--   Persistence/Resets                          sqlite_password_reset_repository.py
--   Persistence/AuditLog                        sqlite_audit_log_repository.py
--   Persistence/Assessments                     sqlite_assessment_repository.py
--   Security/                                   infrastructure/security: OutboundUrl, Secrets,
--                                               PublicUrl, PasswordHasher
--   Billing/Payment, Billing/Service            payment_provider.py, application/billing_service.py
--   Vcs/GitIngestion                            git_repository_ingestion_service.py
--   Scanners/Factory                            agent_factory.py, core/agent.py
--   Scanners/Report, Web                        what the agents of infrastructure/scanners share
--   Scanners/RedTeam, Cloud, BlueTeam,          red_team_agent.py, cloud_security_agent.py,
--     BlackBox, ApiSecurity, AutoRemediation    blue_team_agent.py, black_box_agent.py,
--                                               api_security_agent.py,
--                                               auto_remediation_agent.py
--   Assessments/Service, Scans, Status,         application/assessment_service.py
--     Webhook, Report
--   Mail                                        infrastructure/email/email_provider.py
--   Auth, Team                                  application/auth_service.py, team_service.py
--   Api/RateLimiter, Api/Dependencies           api/rate_limiter.py, api/dependencies.py
--   Api/Http, Endpoints, Routers, Stream        api/routers
--   Api/Application                             main.py
-- The child modules of these prove things about them: Assessments/Tenants, Limits, Scans/Consent,
-- Scans/Execution, Report/Totals, Team/LastOwner, Auth/Sessions, Auth/Resets and so on. Prelude
-- holds tests, lists, texts, sorting and unique keys; Tests holds concrete data.
--
-- Of Python's texts, `lower` maps the ASCII letters and leaves other letters as they are, so what is
-- said of e-mail addresses, headers and log lines is said of ASCII ones.
--
-- Parameters, for code that the repository does not contain: PyJWT (`TokenCodec`, with the laws
-- `IsFaithful`), hashlib
-- (`Digests`), the Stripe SDK (`StripeSdk`), the SMTP server (`EmailProvider`), httpx and hmac
-- (`WebhookHost`), urllib, socket and ipaddress (`Network`), git (`GitHost`), the file system
-- (`Disk`), what an agent finds (`AgentRun`), pathlib and re (`Files`), what the network agents use
-- of socket, httpx, urllib and re (`Web`), json, yaml and base64 (`Codec`), the Redis client
-- (`Client`, with the laws `IsRedis`), and the commands of the auto-remediation agent (`Runner`).
--
-- All functions are structural recursions on lists, texts or numbers. The crawl of the black-box
-- agent recurs on the pages that it may still add and, below that, on its queue; the event stream
-- recurs on the polls that are left; the digits of a number have more fuel than the number has
-- digits. Of the bounds, a reset token lives 30 minutes, an access token 12 hours, a stream has 600
-- polls and a crawl 15 pages, as in the code. A substitution recurs on the text, with the length
-- that is left of a match.
--
-- Not modelled: the Trivy, white-box, dependency and secret-detection agents, the older
-- create-assessment use case, FastAPI's parsing of requests, logging, metrics export, error
-- tracking, the database engine and its migrations, and the HTML pages.
pub mod Prelude
pub mod Exec
pub mod Domain
pub mod Persistence
pub mod System
pub mod Security
pub mod Billing
pub mod Vcs
pub mod Scanners
pub mod Assessments
pub mod Mail
pub mod Auth
pub mod Team
pub mod Api
pub mod Tests
