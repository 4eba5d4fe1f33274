-- ===== src/Scanners/AutoRemediation/Run.antt =====
-- `execute` of auto_remediation_agent.py, and the files that it writes.
pub mod Writes
use Prim.Native.String.{[], ◌∷◌}
use Prim.Native.Char.{code}
use security_review_ai.Prelude.{
  ℕ, zero, ◌-◌, String, str_eq, Bool, true, false, ◌||◌, not, Option, none, some, List, ◌++◌, any,
  keep_if, length, lower, strip, contains, concat, decimal, join, is_nonempty, ◌==◌, if◌then◌else◌,
}
use security_review_ai.Prelude.Dict.{update_key, value_of}
use security_review_ai.Domain.Assessment.{FindingSeverity}
use security_review_ai.Scanners.Report.{Draft, draft}
use security_review_ai.Scanners.AutoRemediation.Patch.{patch_text}
use security_review_ai.Scanners.AutoRemediation.PullRequest.{
  Command, Runner, sorted_texts, open_pull_request,
}

-- what was written over the files, newest last
abbrev pub Written : Type 0
Written = List (String × String)

-- the file system before, the other agent, pathlib's resolve and the commands
pub record Host : Type 0 where
  pub exists : String → Bool
  pub is_file : String → Bool
  pub content : String → Option String
  pub resolve : String → String
  pub scan : Written → String → List Draft
  pub run : Runner

-- evidence.rsplit(":", 1)[0], or `none` without a `:`
unfoldable pub before_last : String → Option String
before_last [] = none
before_last (c ∷ s) = elim (before_last s) [
  | some a ↦ some (c ∷ a)
  | none ↦ if code c == b':' then some "" else none
]

abbrev or_whole : String → Option String → String
or_whole s none = s
or_whole s (some a) = a

-- `_is_fixable`
unfoldable pub is_fixable : Draft → Bool
is_fixable d = contains (lower d.title) "timeout" || contains (lower d.description) "timeout"

module _ (host : Host) where
  abbrev or_initial : String → Option String → Option String
  or_initial path none = host.content path
  or_initial path (some text) = some text

  -- what a file has after the writes
  abbrev pub content_of : String → Written → Option String
  content_of path w = or_initial path (value_of str_eq path w)

  abbrev pub store : String → String → String → Written → Bool × Written
  store path original new w =
      if str_eq new original then (false, w) else (true, update_key str_eq (λ old. new) path w)

  abbrev pub patch_content : String → Option String → Written → Bool × Written
  patch_content path none w = (false, w)
  patch_content path (some original) w = store path original (patch_text original) w

  -- `_patch_file`
  unfoldable pub patch_file : String → Written → Bool × Written
  patch_file path w = patch_content path (content_of path w) w

  abbrev add_path : String → List String → List String
  add_path p l = if any (str_eq p) l then l else l ++ List.◌∷◌ p List.[]

  abbrev with_patched : String → List String → Bool × Written → List String × Written
  with_patched path patched (true, w) = (add_path (host.resolve path) patched, w)
  with_patched path patched (false, w) = (patched, w)

  abbrev fix_evidence : String → List String → Written → List String × Written
  fix_evidence evidence patched w =
      let path = or_whole evidence (before_last evidence) in
      if is_nonempty evidence
      then (if host.is_file path
          then with_patched path patched (patch_file path w)
          else (patched, w))
      else (patched, w)

  -- `_apply_timeout_fixes`
  unfoldable pub apply_timeout_fixes : List Draft → List String → Written → List String × Written
  apply_timeout_fixes List.[] patched w = (patched, w)
  apply_timeout_fixes (List.◌∷◌ d rest) patched w =
      let (patched', w') = fix_evidence (strip d.evidence) patched w in
      apply_timeout_fixes rest patched' w'

  abbrev not_found : String → Draft
  not_found target =
      draft "Target path not found" FindingSeverity.low
        (concat "Could not access target path: " target) target
        "Verify the target path is accessible."

  abbrev none_fixable : String → ℕ → Draft
  none_fixable target n =
      draft "No auto-fixable findings detected" FindingSeverity.low
        (concat "White Box scan found " (
          concat (decimal n)
            " finding(s), none matched a known safe auto-remediation pattern (currently: missing request timeouts)."))
        target "Review the remaining findings manually."

  abbrev evidence_or : String → String → String
  evidence_or target s = if is_nonempty s then s else target

  abbrev applied : String → List String → ℕ → ℕ → Draft
  applied target patched before after =
      draft "Auto-remediation applied: missing request timeout" FindingSeverity.medium
        (concat "Patched " (
          concat (decimal (length patched)) (
            concat
              " file(s) to add explicit timeouts to `requests` calls flagged by static analysis. Findings before: "
              (concat (decimal before) (
                concat ", after: " (
                  concat (decimal after)
                    (concat " (resolved: " (concat (decimal (before - after)) ")."))))))))
        (evidence_or target (join ", " (sorted_texts patched)))
        "Re-run the full scan suite to confirm no regressions were introduced."

  abbrev opened_request : Option String → List Draft
  opened_request none = List.[]
  opened_request (some url) =
      List.◌∷◌
        (draft "Pull request opened with auto-remediation" FindingSeverity.low
          "A pull request was opened with the automatic fix for review." url
          "Review and merge the pull request after CI passes.")
        List.[]

  -- the second scan is made only if a file was patched
  abbrev rescan : String → List Draft → List String → Written → List Draft
  rescan target baseline List.[] w = baseline
  rescan target baseline (List.◌∷◌ p patched) w = host.scan w target

  abbrev remediate :
      String → List Draft → List Draft → List Command → List Draft × (Written × List Command)
  remediate target baseline List.[] log =
      (List.◌∷◌ (none_fixable target (length baseline)) List.[], (List.[], log))
  remediate target baseline (List.◌∷◌ d fixable) log =
      let (patched, w) = apply_timeout_fixes (List.◌∷◌ d fixable) List.[] List.[] in
      let after = rescan target baseline patched w in
      let (url, log') = open_pull_request host.run target patched log in
      (
        List.◌∷◌ (applied target patched (length baseline) (length after)) (opened_request url),
        (w, log'),
      )

  unfoldable pub execute_on : String → List Command → List Draft × (Written × List Command)
  execute_on target log = elim (host.exists target) [
    | true ↦
        let baseline = host.scan List.[] target in
        remediate target baseline (keep_if is_fixable baseline) log
    | false ↦ (List.◌∷◌ (not_found target) List.[], (List.[], log))
  ]

  -- `AutoRemediationAgent.execute`
  unfoldable pub execute : Option String → List Command → List Draft × (Written × List Command)
  execute none log = (List.[], (List.[], log))
  execute (some target) log = elim (is_nonempty target) [
    | true ↦ execute_on target log
    | false ↦ (List.[], (List.[], log))
  ]
