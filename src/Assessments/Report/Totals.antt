-- ===== src/Assessments/Report/Totals.antt =====
-- The sums of a report.
use security_review_ai.Prelude.{
  ℕ, suc, ◌+◌, ◌≡◌, refl, ap, ◌∙◌, String, List, [], ◌∷◌, arith, length, map,
}
use security_review_ai.Domain.Assessment.{
  Assessment, Finding, FindingSeverity, ScanJob, agent_value,
}
use security_review_ai.Assessments.Report.{severity_count, increment, tally, report_of}

severities_add :
    (t : List Finding)
    → severity_count FindingSeverity.critical t
        + severity_count FindingSeverity.high t
        + severity_count FindingSeverity.medium t
        + severity_count FindingSeverity.low t
      ≡ length t
severities_add [] = omega arith
severities_add (f ∷ t) = ground (arith, severities_add t)

abbrev pub total : List (String × ℕ) → ℕ
total [] = 0
total ((k, n) ∷ t) = n + total t

total-increment : (k : String) (t : List (String × ℕ)) → total (increment k t) ≡ suc (total t)
unfolding increment
total-increment k [] = omega arith
total-increment k ((j, n) ∷ t) = ground (arith, total-increment k t)

total-tally :
    (acc : List (String × ℕ)) (t : List String) → total (tally acc t) ≡ total acc + length t
unfolding tally
total-tally acc [] = omega arith
total-tally acc (k ∷ t) = ground (arith, total-tally (increment k acc) t, total-increment k acc)

length-map {ℓ κ} :
    {A : Type ℓ} {B : Type κ} (f : A → B) (xs : List A) → length (map f xs) ≡ length xs
length-map f [] = refl
length-map f (x ∷ xs) = ap (λ (n : ℕ). ℕ.suc n) (length-map f xs)

-- The four severity counts of a report add up to its number of findings, and the numbers of the
-- agent breakdown to the number of scan jobs.
pub report_of-totals :
    (a : Assessment)
    → let r = report_of a in
      (r.severity_counts.critical + r.severity_counts.high + r.severity_counts.medium
          + r.severity_counts.low
        ≡ r.finding_count)
      × (total r.agent_breakdown ≡ length a.scan_jobs)
unfolding report_of
report_of-totals a =
    let agents = map (λ (j : ScanJob). agent_value j.agent_type) a.scan_jobs in
    (
      severities_add a.findings,
      total-tally [] agents
          ∙ omega arith
          ∙ length-map (λ (j : ScanJob). agent_value j.agent_type) a.scan_jobs,
    )
