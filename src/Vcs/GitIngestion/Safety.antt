-- ===== src/Vcs/GitIngestion/Safety.antt =====
-- What reaches the git process.
use mathlib.Core.Path.{subst}
use security_review_ai.Prelude.{
  ℕ, ◌≡◌, refl, ◌⊎◌, inl, inr, String, true, false, ◌||◌, arith, is_nonempty, starts_with, strip,
  Bool-cases,
}
use security_review_ai.Exec.{ok, Result-cases}
use security_review_ai.Security.OutboundUrl.{Network, validate_public_http_url}
use security_review_ai.Vcs.GitIngestion.{
  Ingestion, ingested, refused, crashed, IngestionResult, GitHost, clone_done, IngestionError,
  or_main, validate_repository_url, validate_branch, clone,
}

-- A URL that passes is of the http or https scheme and passes the check of public URLs, and a branch
-- that passes is not empty and does not look like an option.
validate_repository_url-safe :
    (net : Network) (url checked : String)
    → validate_repository_url net url ≡ ingested checked
    → (checked ≡ url)
      × (starts_with url "-" ≡ false)
      × ((starts_with url "https://" || starts_with url "http://") ≡ true)
      × ((u : String) × (validate_public_http_url net url ≡ ok u))
unfolding validate_repository_url
validate_repository_url-safe net url checked h =
    elim (Result-cases (validate_public_http_url net url)) [
      | inl (u, e) ↦ (ground arith, ground arith, ground arith, (u, e))
      | inr (x, e) ↦ absurd (ground arith)
    ]

validate_branch-safe :
    (branch b : String)
    → validate_branch branch ≡ ingested b
    → (is_nonempty b ≡ true) × (starts_with b "-" ≡ false)
unfolding validate_branch starts_with
validate_branch-safe branch b h = elim (Bool-cases (is_nonempty (strip (or_main branch)))) [
  | inl e ↦ ground arith
  | inr e ↦
      let main : ingested "main" ≡ ingested b = ground arith in
      let same : "main" ≡ b = cc in
      subst (λ x. (is_nonempty x ≡ true) × (starts_with x "-" ≡ false)) same (refl, refl)
]

Ingestion-cases :
    {A : Type 0} (x : Ingestion A)
    → ((a : A) × (x ≡ ingested a)) ⊎ (((e : IngestionError) × (x ≡ refused e)) ⊎ (x ≡ crashed))
Ingestion-cases (ingested a) = inl (a, refl)
Ingestion-cases (refused e) = inr (inl (e, refl))
Ingestion-cases crashed = inr (inr refl)

-- A clone that succeeds ran git on the URL that was asked for, which is of the http or https
-- scheme, does not look like an option and passes the check of public URLs, and on a branch that
-- is not empty and does not look like an option; and it stands at the directory of the
-- repository's id.
pub clone-safe :
    (net : Network) (git : GitHost) (url branch : String) (id : ℕ) (r : IngestionResult)
    → clone net git url branch id ≡ ingested r
    → ((starts_with url "https://" || starts_with url "http://") ≡ true)
      × (starts_with url "-" ≡ false)
      × ((u : String) × (validate_public_http_url net url ≡ ok u))
      × ((b : String) × (is_nonempty b ≡ true)
          × (starts_with b "-" ≡ false)
          × (git.run_clone b url (git.dest id) ≡ clone_done))
      × (r.local_path ≡ git.dest id)
unfolding clone
clone-safe net git url branch id r h = elim (Ingestion-cases (validate_repository_url net url)) [
  | inr (inl (x, e)) ↦ absurd (ground arith)
  | inr (inr e) ↦ absurd (ground arith)
  | inl (c, e) ↦ elim (Ingestion-cases (validate_branch branch)) [
    | inr (inl (x, f)) ↦ absurd (ground arith)
    | inr (inr f) ↦ absurd (ground arith)
    | inl (b, f) ↦
        let (same, dash, scheme, public) = validate_repository_url-safe net url c e in
        let (full, plain) = validate_branch-safe branch b f in
        (scheme, dash, public, (b, full, plain, ground arith), ground arith)
  ]
]
