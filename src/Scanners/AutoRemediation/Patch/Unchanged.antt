-- ===== src/Scanners/AutoRemediation/Patch/Unchanged.antt =====
-- Which texts the patch leaves as they are.
use Prim.Native.Char.{Char}
use Prim.Native.String.{[], ◌∷◌}
use text.Mathlib.TextLemmas.{nil-append, cons-append}
use security_review_ai.Prelude.{
  ℕ, zero, suc, ◌≡◌, refl, sym, ap, ◌∙◌, String, Bool, true, false, ◌&&◌, none, some, concat,
  contains, if◌then◌else◌, Option-cases, inl, inr,
}
use security_review_ai.Scanners.AutoRemediation.Patch.Matching.{call_at-concat}
use security_review_ai.Scanners.AutoRemediation.Patch.{
  Call, call_at, call_text, add_timeout, size, less_one, patched, patch_text,
}

-- every call that is found has the word timeout among its arguments
unfoldable pub all_timed : ℕ → String → Bool
all_timed n [] = true
all_timed (suc n) (c ∷ s) = all_timed n s
all_timed zero (c ∷ s) = elim (call_at (c ∷ s)) [
  | none ↦ all_timed zero s
  | some call ↦ contains call.1 "timeout" && all_timed (less_one (size (call_text call))) s
]

dropped : ℕ → String → String
dropped n [] = []
dropped zero (c ∷ s) = c ∷ s
dropped (suc n) (c ∷ s) = dropped n s

dropped-zero : (s : String) → dropped zero s ≡ s
unfolding dropped
dropped-zero [] = refl
dropped-zero (c ∷ s) = refl

dropped-size : (p r : String) → dropped (size p) (concat p r) ≡ r
unfolding dropped size
dropped-size [] r = rw (nil-append r) (dropped-zero r)
dropped-size (c ∷ p) r = rw (cons-append c p r) (dropped-size p r)

first_letter : Char
first_letter = "r"

size-call_text : (call : Call) → size (call_text call) ≡ suc (less_one (size (call_text call)))
unfolding size first_letter
size-call_text (m, args) =
    let rest = concat m (concat "(" (concat args ")")) in
    let e = ap size (cons-append first_letter "equests." rest) in
    e ∙ ap (λ n. suc (less_one n)) (sym e)

-- a match is dropped with its text
dropped-call :
    (c : Char) (s : String) (call : Call)
    → call_at (c ∷ s) ≡ some call
    → concat (call_text call) (dropped (less_one (size (call_text call))) s) ≡ c ∷ s
unfolding dropped
dropped-call c s call e =
    let (rest, m) = call_at-concat (c ∷ s) call e in
    let tail : dropped (less_one (size (call_text call))) s ≡ rest =
      ap (λ n. dropped n (c ∷ s)) (sym (size-call_text call))
      ∙ ap (dropped (size (call_text call))) m
      ∙ dropped-size (call_text call) rest in
    ap (concat (call_text call)) tail ∙ sym m

patched-plain :
    (c : Char) (s : String) → call_at (c ∷ s) ≡ none → patched zero (c ∷ s) ≡ c ∷ patched zero s
unfolding patched
patched-plain c s e = rw (e, patched) refl

patched-call :
    (c : Char) (s : String) (call : Call)
    → call_at (c ∷ s) ≡ some call
    → patched zero (c ∷ s)
      ≡ concat (add_timeout call) (patched (less_one (size (call_text call))) s)
unfolding patched
patched-call c s call e = rw (e, patched) refl

timed-plain :
    (c : Char) (s : String) → call_at (c ∷ s) ≡ none → all_timed zero (c ∷ s) ≡ all_timed zero s
unfolding all_timed
timed-plain c s e = rw (e, all_timed) refl

timed-call :
    (c : Char) (s : String) (call : Call)
    → call_at (c ∷ s) ≡ some call
    → all_timed zero (c ∷ s)
      ≡ contains call.1 "timeout" && all_timed (less_one (size (call_text call))) s
unfolding all_timed
timed-call c s call e = rw (e, all_timed) refl

add_timeout-timed :
    (call : Call) → contains call.1 "timeout" ≡ true → add_timeout call ≡ call_text call
add_timeout-timed (m, args) h = rw (h, if◌then◌else◌) refl

both_true : (a b : Bool) → a && b ≡ true → (a ≡ true) × (b ≡ true)
both_true true b h = (refl, h)
both_true false b h = absurd (cc)

patched-dropped : (n : ℕ) (s : String) → all_timed n s ≡ true → patched n s ≡ dropped n s
unfolding patched all_timed dropped
patched-dropped n [] h = refl
patched-dropped (suc n) (c ∷ s) h = patched-dropped n s h
patched-dropped zero (c ∷ s) h = elim (Option-cases (call_at (c ∷ s))) [
  | inl e ↦
      patched-plain c s e
      ∙ ap (λ x. c ∷ x) (patched-dropped zero s (sym (timed-plain c s e) ∙ h) ∙ dropped-zero s)
  | inr (call, e) ↦
      let k = less_one (size (call_text call)) in
      let (timed, rest) = both_true _ (all_timed k s) (sym (timed-call c s call e) ∙ h) in
      patched-call c s call e
      ∙ ap (λ x. concat x (patched k s)) (add_timeout-timed call timed)
      ∙ ap (concat (call_text call)) (patched-dropped k s rest)
      ∙ dropped-call c s call e
]

pub patch_text-timed :
    (original : String) → all_timed zero original ≡ true → patch_text original ≡ original
unfolding patch_text
patch_text-timed original h = patched-dropped zero original h ∙ dropped-zero original
