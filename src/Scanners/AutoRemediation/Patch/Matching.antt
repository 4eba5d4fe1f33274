-- ===== src/Scanners/AutoRemediation/Patch/Matching.antt =====
-- A match is a part of the text.
use Prim.Native.Char.{Char, code}
use Prim.Native.String.{[], ◌∷◌}
use mathlib.Core.List.{List}
use text.Mathlib.TextLemmas.{append_assoc, nil-append, cons-append}
use text.Mathlib.TextEquality.{Char-path}
use security_review_ai.Prelude.{
  ◌≡◌, refl, sym, ap, ◌∙◌, String, true, false, none, some, concat, split_once, cons_first, ◌==◌,
  ==_iff, if◌then◌else◌, Bool-cases, Option-cases, inl, inr,
}
use security_review_ai.Scanners.AutoRemediation.Patch.{
  after, Call, with_arguments, arguments_after, method_at, call_after, call_at, call_text,
  http_methods,
}

after-same :
    (c d : Char) (p s : String) → (code c == code d) ≡ true → after (c ∷ p) (d ∷ s) ≡ after p s
unfolding after
after-same c d p s h = rw (h, if◌then◌else◌) refl

after-other :
    (c d : Char) (p s : String) → (code c == code d) ≡ false → after (c ∷ p) (d ∷ s) ≡ none
unfolding after
after-other c d p s h = rw (h, if◌then◌else◌) refl

some_injective : {a b : String} → some a ≡ some b → a ≡ b
some_injective h = cc

none≢some : {r : String} → none ≡ some r → ⊥
none≢some h = absurd (cc)

after-concat : (p s r : String) → after p s ≡ some r → s ≡ concat p r
unfolding after
after-concat [] s r e = some_injective e ∙ sym (nil-append r)
after-concat (c ∷ p) [] r e = absurd (cc)
after-concat (c ∷ p) (d ∷ s) r e = elim (Bool-cases (code c == code d)) [
  | inl h ↦
      ap (λ x. x ∷ s) (sym (Char-path c d ((==_iff (code c) (code d)).0 h)))
      ∙ ap (λ x. c ∷ x) (after-concat p s r (sym (after-same c d p s h) ∙ e))
      ∙ sym (cons-append c p r)
  | inr h ↦ absurd (none≢some (sym (after-other c d p s h) ∙ e))
]

none≢call : {call : Call} → none ≡ some call → ⊥
none≢call h = absurd (cc)

split-here :
    (c : Char) (s : String) → (code c == b')') ≡ true → split_once b')' (c ∷ s) ≡ some ([], s)
unfolding split_once
split-here c s h = rw (h, if◌then◌else◌) refl

split-later :
    (c : Char) (s : String)
    → (code c == b')') ≡ false
    → split_once b')' (c ∷ s) ≡ cons_first c (split_once b')' s)
unfolding split_once
split-later c s h = rw (h, if◌then◌else◌) refl

abbrev paren_char : Char
paren_char = ")"

paren : (c : Char) (s : String) → code c ≡ b')' → c ∷ s ≡ concat ")" s
paren c s h =
    ap (λ x. x ∷ s) (Char-path c paren_char h)
    ∙ ap (λ x. paren_char ∷ x) (sym (nil-append s))
    ∙ sym (cons-append paren_char [] s)

some_first {ℓ κ} : {A : Type ℓ} {B : Type κ} {p q : A × B} → some p ≡ some q → p.0 ≡ q.0
some_first h = cc

some_second {ℓ κ} : {A : Type ℓ} {B : Type κ} {p q : A × B} → some p ≡ some q → p.1 ≡ q.1
some_second h = cc

closing :
    {a a' b b' : String} → a' ≡ a → b' ≡ b → concat a' (concat ")" b') ≡ concat a (concat ")" b)
closing e h = rw (e, h) refl

split-concat : (s a b : String) → split_once b')' s ≡ some (a, b) → s ≡ concat a (concat ")" b)
unfolding split_once cons_first
split-concat [] a b e = absurd (cc)
split-concat (c ∷ s) a b e = elim (Bool-cases (code c == b')')) [
  | inl h ↦
      let q = sym (split-here c s h) ∙ e in
      paren c s ((==_iff (code c) b')').0 h)
      ∙ sym (nil-append (concat ")" s))
      ∙ closing (some_first q) (some_second q)
  | inr h ↦ elim (Option-cases (split_once b')' s)) [
    | inl n ↦ absurd (cc (split-later c s h, n, e))
    | inr ((a', b'), n) ↦
        let q : some (c ∷ a', b') ≡ some (a, b) =
          sym (split-later c s h ∙ ap (cons_first c) n) ∙ e in
        ap (λ x. c ∷ x) (split-concat s a' b' n)
        ∙ sym (cons-append c a' (concat ")" b'))
        ∙ closing (some_first q) (some_second q)
  ]
]

-- a match, and what comes after it
abbrev Matched : Call → String → Type 0
Matched call s =
    (rest : String) × (s ≡ concat call.0 (concat "(" (concat call.1 (concat ")" rest))))

method_at-Matched :
    (ms : List String) (s : String) (call : Call) → method_at ms s ≡ some call → Matched call s
unfolding method_at
method_at-Matched List.[] s call e = absurd (cc)
method_at-Matched (List.◌∷◌ m ms) s call e = elim (Option-cases (after (concat m "(") s)) [
  | inl n ↦ method_at-Matched ms s call (sym (ap (λ o. arguments_after m o (method_at ms s)) n) ∙ e)
  | inr (r, n) ↦ elim (Option-cases (split_once b')' r)) [
    | inl k ↦ absurd (
        none≢call
          (sym (ap (λ o. arguments_after m o (method_at ms s)) n ∙ ap (with_arguments m) k) ∙ e))
    | inr ((args, rest), k) ↦
        let q : some (m, args) ≡ some call =
          sym (ap (λ o. arguments_after m o (method_at ms s)) n ∙ ap (with_arguments m) k) ∙ e in
        (
          rest,
          after-concat (concat m "(") s r n
              ∙ append_assoc m "(" r
              ∙ ap (λ x. concat m (concat "(" x)) (split-concat r args rest k)
              ∙ rw (some_first q, some_second q) refl,
        )
  ]
]

call_text-concat :
    (call : Call) (rest : String)
    → concat (call_text call) rest
      ≡ concat "requests." (concat call.0 (concat "(" (concat call.1 (concat ")" rest))))
call_text-concat (m, args) rest =
    append_assoc "requests." (concat m (concat "(" (concat args ")"))) rest
    ∙ ap (concat "requests.") (
        append_assoc m (concat "(" (concat args ")")) rest
        ∙ ap (concat m) (
            append_assoc "(" (concat args ")") rest ∙ ap (concat "(") (append_assoc args ")" rest)))

pub call_at-concat :
    (s : String) (call : Call)
    → call_at s ≡ some call
    → (rest : String) × (s ≡ concat (call_text call) rest)
unfolding call_at
call_at-concat s call e = elim (Option-cases (after "requests." s)) [
  | inl n ↦ absurd (none≢call (sym (ap call_after n) ∙ e))
  | inr (r, n) ↦
      let (rest, m) = method_at-Matched http_methods r call (sym (ap call_after n) ∙ e) in
      (
        rest,
        after-concat "requests." s r n
            ∙ ap (concat "requests.") m
            ∙ sym (call_text-concat call rest),
      )
]
