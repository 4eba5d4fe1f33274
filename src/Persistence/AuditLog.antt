-- ===== src/Persistence/AuditLog.antt =====
-- sqlite_audit_log_repository.py: the append-only table `consent_audit_log`.
use security_review_ai.Prelude.{
  ℕ, ◌==◌, Bool, List, [], ◌∷◌, ◌++◌, any, keep_if, take, if◌then◌else◌, leb,
}
use security_review_ai.Prelude.Sort.{sort}
use security_review_ai.Exec.{Result, ok, err, integrity_error}
use security_review_ai.Domain.Audit.{ConsentAuditEntry}

unfoldable pub record_entry :
    ConsentAuditEntry → List ConsentAuditEntry → Result (List ConsentAuditEntry)
record_entry e t = if any (λ r. r.id == e.id) t then err integrity_error else ok (t ++ e ∷ [])

-- confirmed_at DESC
abbrev newest_first : ConsentAuditEntry → ConsentAuditEntry → Bool
newest_first a b = leb b.confirmed_at a.confirmed_at

abbrev pub default_limit : ℕ
default_limit = 200

unfoldable pub list_entries : ℕ → ℕ → List ConsentAuditEntry → List ConsentAuditEntry
list_entries organization_id limit t =
    take limit (sort newest_first (keep_if (λ e. e.organization_id == organization_id) t))
