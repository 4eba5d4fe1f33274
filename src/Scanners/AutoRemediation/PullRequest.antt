-- ===== src/Scanners/AutoRemediation/PullRequest.antt =====
-- `_open_pull_request` of auto_remediation_agent.py. Commands are run by a parameter; `none` stands
-- for an exception that it raises.
use Prim.Native.String.{compare}
use Prim.Native.Nat.{Ordering}
use security_review_ai.Prelude.{
  ℕ, String, Bool, true, false, Option, none, some, List, [], ◌∷◌, ◌++◌, strip, is_nonempty, ◌==◌,
  if◌then◌else◌,
}
use security_review_ai.Prelude.Sort.{sort}

abbrev pub Command : Type 0
Command = List String

-- the exit code and the standard output, after the commands before it
abbrev pub Runner : Type 0
Runner = List Command → Command → Option (ℕ × String)

abbrev branch_name : String
branch_name = "security-review-ai/auto-remediation"

abbrev text_before : String → String → Bool
text_before s t = elim (compare s t) [ Ordering.gt ↦ false | o ↦ true ]

-- sorted(patched_files)
abbrev pub sorted_texts : List String → List String
sorted_texts = sort text_before

abbrev git : String → List String → Command
git target args = "git" ∷ "-C" ∷ target ∷ args

abbrev pub commands : String → List String → List Command
commands target files =
    git target ("checkout" ∷ "-B" ∷ branch_name ∷ [])
    ∷ git target ("add" ∷ "--" ∷ sorted_texts files)
    ∷ git target
        ("commit" ∷ "-m" ∷ "fix: add missing timeout to requests calls (auto-remediation)" ∷ [])
    ∷ git target ("push" ∷ "-u" ∷ "origin" ∷ branch_name ∷ [])
    ∷ ("gh" ∷ "pr" ∷ "create" ∷ "--title" ∷ "Auto-remediation: add missing request timeouts"
        ∷ "--body" ∷ "Automatically generated by the Auto-Remediation security agent." ∷ "--head"
        ∷ branch_name ∷ [])
    ∷ []

abbrev text_or_none : String → Option String
text_or_none s = if is_nonempty (strip s) then some (strip s) else none

module _ (run : Runner) where
  -- each command is run if the one before it ended with 0; the output is the last command's
  unfoldable pub run_all : List Command → String → List Command → Option String × List Command
  run_all [] output log = (text_or_none output, log)
  run_all (command ∷ rest) output log = elim (run log command) [
    | none ↦ (none, log ++ command ∷ [])
    | some (code, out) ↦ elim (code == 0) [
      | true ↦ run_all rest out (log ++ command ∷ [])
      | false ↦ (none, log ++ command ∷ [])
    ]
  ]

  unfoldable pub open_pull_request :
      String → List String → List Command → Option String × List Command
  open_pull_request target [] log = (none, log)
  open_pull_request target (f ∷ files) log = run_all (commands target (f ∷ files)) "" log
