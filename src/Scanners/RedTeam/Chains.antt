-- ===== src/Scanners/RedTeam/Chains.antt =====
-- Which files the agent reports a chained attack path for.
use mathlib.Core.List.{append-nil}
use security_review_ai.Prelude.{
  ◌≡◌, refl, sym, ap, ◌∙◌, ◌↔◌, String, str_eq, eq_iff, Bool, true, false, false≢true, ◌≤◌, ◌&&◌,
  Option, none, some, List, [], ◌∷◌, ◌++◌, any, any-append, length, leb, arith, flat_map, lower,
  is_nonempty, if◌then◌else◌, Bool-cases, inl, inr,
}
use security_review_ai.Prelude.Dict.{
  value_of, IsDict, holds, at_key, update_key-IsDict, value_of-update_key, any-at_key,
}
use security_review_ai.Scanners.Report.{Draft}
use security_review_ai.Scanners.RedTeam.{
  TitlesByFile, file_key, add_title, with_title, titles_by_file, steps_of, chain_of,
  chain_attack_paths,
}

-- the findings that are about a file
abbrev pub about : String → Draft → Bool
about file d = str_eq (file_key d) file

abbrev pub titles_about : String → List Draft → List String
titles_about file [] = []
titles_about file (d ∷ t) =
    let rest = titles_about file t in if about file d then lower d.title ∷ rest else rest

abbrev pub titles_of : Option (List String) → List String
titles_of none = []
titles_of (some titles) = titles

abbrev pub is_attackable : List String → Bool
is_attackable titles = leb 2 (length (steps_of titles))

abbrev pub is_chain_of : String → Draft → Bool
is_chain_of file d = str_eq d.evidence file

with_title_if :
    (b : Bool) (title : String) (o p : Option (List String))
    → (b ≡ true → o ≡ p)
    → titles_of (if b then some (with_title title o) else p)
      ≡ titles_of p ++ (if b then title ∷ [] else [])
with_title_if true title none p h = rw (sym (h refl)) refl
with_title_if true title (some l) p h = rw (sym (h refl)) refl
with_title_if false title o p h = sym (append-nil (titles_of p))

-- a finding without a file is about no file
other_file :
    (file : String) (d : Draft)
    → is_nonempty file ≡ true
    → is_nonempty (file_key d) ≡ false
    → about file d ≡ false
other_file file d h e = elim (Bool-cases (about file d)) [
  | inl same ↦ absurd (false≢true (sym e ∙ ap is_nonempty ((eq_iff (file_key d) file).0 same) ∙ h))
  | inr other ↦ other
]

value_of-add_title :
    (file : String) (d : Draft) (t : TitlesByFile)
    → is_nonempty file ≡ true
    → titles_of (value_of str_eq file (add_title d t))
      ≡ titles_of (value_of str_eq file t) ++ titles_about file (d ∷ [])
value_of-add_title file d t h = elim (Bool-cases (is_nonempty (file_key d))) [
  | inl e ↦
      rw (e, if◌then◌else◌)
        (ap titles_of
            (value_of-update_key str_eq eq_iff (with_title (lower d.title)) (file_key d) file t)
          ∙ with_title_if (about file d) (lower d.title) _ (value_of str_eq file t)
              (λ same. ap (λ k. value_of str_eq k t) ((eq_iff (file_key d) file).0 same)))
  | inr e ↦
      rw (e, if◌then◌else◌)
        (rw (other_file file d h e) (sym (append-nil (titles_of (value_of str_eq file t)))))
]

add_title-IsDict : (d : Draft) (t : TitlesByFile) → IsDict str_eq t → IsDict str_eq (add_title d t)
add_title-IsDict d t h = elim (Bool-cases (is_nonempty (file_key d))) [
  | inl e ↦
      rw (e, if◌then◌else◌)
        (update_key-IsDict str_eq eq_iff (with_title (lower d.title)) (file_key d) t h)
  | inr e ↦ rw (e, if◌then◌else◌) h
]

titles_by_file-IsDict :
    (ds : List Draft) (t : TitlesByFile) → IsDict str_eq t → IsDict str_eq (titles_by_file ds t)
unfolding titles_by_file
titles_by_file-IsDict [] t h = h
titles_by_file-IsDict (d ∷ ds) t h =
    titles_by_file-IsDict ds (add_title d t) (add_title-IsDict d t h)

any-chain_of :
    (file key : String) (titles : List String)
    → any (is_chain_of file) (chain_of (key, titles)) ≡ str_eq key file && is_attackable titles
any-chain_of file key titles = elim (Bool-cases (is_attackable titles)) [
  | inl e ↦ rw e (ground arith)
  | inr e ↦ rw e (ground arith)
]

any-chains :
    (file : String) (t : TitlesByFile)
    → any (is_chain_of file) (flat_map chain_of t) ≡ any (at_key str_eq file is_attackable) t
any-chains file [] = refl
any-chains file ((key, titles) ∷ t) =
    any-append (is_chain_of file) (chain_of (key, titles)) (flat_map chain_of t)
    ∙ rw (any-chain_of file key titles, any-chains file t) refl

holds-is_attackable :
    (o : Option (List String)) → holds str_eq is_attackable o ≡ is_attackable (titles_of o)
unfolding steps_of
holds-is_attackable none = refl
holds-is_attackable (some titles) = refl

one_more :
    (l : List String) (file : String) (d : Draft) (ds : List Draft)
    → (l ++ titles_about file (d ∷ [])) ++ titles_about file ds ≡ l ++ titles_about file (d ∷ ds)
one_more [] file d ds = elim (Bool-cases (about file d)) [
  | inl e ↦ rw (e, if◌then◌else◌) refl
  | inr e ↦ rw (e, if◌then◌else◌) refl
]
one_more (x ∷ l) file d ds = ap (λ t. x ∷ t) (one_more l file d ds)

titles_by_file-about :
    (file : String) (ds : List Draft) (t : TitlesByFile)
    → is_nonempty file ≡ true
    → titles_of (value_of str_eq file (titles_by_file ds t))
      ≡ titles_of (value_of str_eq file t) ++ titles_about file ds
unfolding titles_by_file
titles_by_file-about file [] t h = sym (append-nil (titles_of (value_of str_eq file t)))
titles_by_file-about file (d ∷ ds) t h =
    titles_by_file-about file ds (add_title d t) h
    ∙ ap (λ l. l ++ titles_about file ds) (value_of-add_title file d t h)
    ∙ one_more (titles_of (value_of str_eq file t)) file d ds

-- For every nonempty file name, the red-team agent reports a chained attack path with this file
-- as evidence exactly when the titles of the findings about the file, gathered directly from the
-- list of findings, contain at least two kinds of attack steps.
pub chain_attack_paths_iff :
    (file : String) (findings : List Draft)
    → is_nonempty file ≡ true
    → (any (is_chain_of file) (chain_attack_paths findings) ≡ true)
      ↔ (2 ≤ length (steps_of (titles_about file findings)))
unfolding chain_attack_paths value_of
chain_attack_paths_iff file findings h =
    rw
      (any-chains file (titles_by_file findings [])
        ∙ any-at_key str_eq eq_iff file is_attackable (titles_by_file findings [])
            (titles_by_file-IsDict findings [] tt)
        ∙ holds-is_attackable (value_of str_eq file (titles_by_file findings []))
        ∙ ap is_attackable (titles_by_file-about file findings [] h))
      (ground arith)
