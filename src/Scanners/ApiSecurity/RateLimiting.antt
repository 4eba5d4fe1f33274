-- ===== src/Scanners/ApiSecurity/RateLimiting.antt =====
-- `_check_rate_limiting` of api_security_agent.py.
use security_review_ai.Prelude.{
  ℕ, zero, suc, String, Bool, true, false, not, none, some, List, [], ◌∷◌, ◌++◌, any, map, length,
  concat, decimal, join, leb, ◌==◌, if◌then◌else◌,
}
use security_review_ai.Prelude.Sort.{sort}
use security_review_ai.Domain.Assessment.{FindingSeverity}
use security_review_ai.Scanners.Report.{Draft, draft, report_if}
use security_review_ai.Scanners.Web.{Sent, Web, request}

abbrev pub rate_limit_probe_count : ℕ
rate_limit_probe_count = 15

module _ (web : Web) where
  -- the status codes of a burst of requests, which ends at an exception or at a 429
  unfoldable pub burst : ℕ → String → List Sent → List ℕ × List Sent
  burst zero url log = ([], log)
  burst (suc n) url log = elim (web.answer log (request url)) [
    | none ↦ ([], log ++ request url ∷ [])
    | some r ↦ elim (r.status_code == 429) [
      | true ↦ (429 ∷ [], log ++ request url ∷ [])
      | false ↦
          let (codes, log') = burst n url (log ++ request url ∷ []) in (r.status_code ∷ codes, log')
    ]
  ]

  abbrev distinct : List ℕ → List ℕ
  distinct [] = []
  distinct (n ∷ rest) = let l = distinct rest in if any (λ m. n == m) l then l else n ∷ l

  abbrev code_list : List ℕ → String
  code_list codes = concat "[" (concat (join ", " (map decimal (sort leb (distinct codes)))) "]")

  abbrev pub is_unlimited : List ℕ → Bool
  is_unlimited [] = false
  is_unlimited (c ∷ codes) = not (any (λ m. m == 429) (c ∷ codes))

  -- `_check_rate_limiting`
  unfoldable pub check_rate_limiting : String → List Sent → List Draft × List Sent
  check_rate_limiting url log =
      let (codes, log') = burst rate_limit_probe_count url log in
      (
        report_if (is_unlimited codes) (
            draft "No rate limiting detected" FindingSeverity.medium
              (concat "Sent " (
                concat (decimal (length codes)) (
                  concat " rapid consecutive requests to "
                    (concat url " without receiving an HTTP 429 (Too Many Requests) response."))))
              (concat (decimal (length codes))
                (concat " requests, status codes observed: " (code_list codes)))
              "Implement per-client rate limiting (e.g. token-bucket/fixed-window) on this endpoint to mitigate brute-force and denial-of-service abuse."),
        log',
      )
