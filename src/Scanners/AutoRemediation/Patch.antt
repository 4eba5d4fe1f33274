-- ===== src/Scanners/AutoRemediation/Patch.antt =====
-- `_patch_file` of auto_remediation_agent.py: the rewriting of calls of `requests`. The pattern
-- requests\.(get|post|...)\(([^)]*)\) is written out as a test at each position of the text.
pub mod Matching
pub mod Unchanged
use Prim.Native.String.{[], ◌∷◌}
use Prim.Native.Char.{code}
use security_review_ai.Prelude.{
  ℕ, zero, suc, String, str_eq, Bool, true, false, Option, none, some, concat, contains, rstrip_if,
  is_space, is_nonempty, split_once, ◌==◌, if◌then◌else◌,
}
use mathlib.Core.List.{List}

-- the rest of a text after a prefix
unfoldable pub after : String → String → Option String
after [] s = some s
after (c ∷ p) [] = none
after (c ∷ p) (d ∷ s) = if code c == code d then after p s else none

abbrev pub Call : Type 0
Call = String × String

-- the arguments up to the first `)`
abbrev pub with_arguments : String → Option (String × String) → Option Call
with_arguments method none = none
with_arguments method (some (args, rest)) = some (method, args)

abbrev pub http_methods : List String
http_methods = List.◌∷◌ "get" (
    List.◌∷◌ "post" (
      List.◌∷◌ "put"
        (List.◌∷◌ "delete" (List.◌∷◌ "head" (List.◌∷◌ "patch" (List.◌∷◌ "request" List.[]))))))

abbrev pub arguments_after : String → Option String → Option Call → Option Call
arguments_after method none others = others
arguments_after method (some rest) others = with_arguments method (split_once b')' rest)

unfoldable pub method_at : List String → String → Option Call
method_at List.[] s = none
method_at (List.◌∷◌ m ms) s = arguments_after m (after (concat m "(") s) (method_at ms s)

abbrev pub call_after : Option String → Option Call
call_after none = none
call_after (some s) = method_at http_methods s

-- the match that begins a text, if there is one
unfoldable pub call_at : String → Option Call
call_at s = call_after (after "requests." s)

-- match.group(0)
abbrev pub call_text : Call → String
call_text (method, args) = concat "requests." (concat method (concat "(" (concat args ")")))

abbrev pub with_timeout : String → String
with_timeout args = if is_nonempty args then concat args ", timeout=10" else "timeout=10"

-- `_add_timeout`
abbrev pub add_timeout : Call → String
add_timeout (method, args) =
    if contains args "timeout"
    then call_text (method, args)
    else call_text (method, with_timeout (rstrip_if is_space args))

unfoldable pub size : String → ℕ
size [] = zero
size (c ∷ s) = suc (size s)

-- how much of a match comes after its first character
abbrev pub less_one : ℕ → ℕ
less_one zero = zero
less_one (suc n) = n

-- `_REQUESTS_CALL_PATTERN.sub`, where the first argument is what is left of a match
unfoldable pub patched : ℕ → String → String
patched n [] = []
patched (suc n) (c ∷ s) = patched n s
patched zero (c ∷ s) = elim (call_at (c ∷ s)) [
  | none ↦ c ∷ patched zero s
  | some call ↦ concat (add_timeout call) (patched (less_one (size (call_text call))) s)
]

unfoldable pub patch_text : String → String
patch_text original = patched zero original
