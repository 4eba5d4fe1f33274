-- ===== src/Scanners/BlueTeam/Discovery.antt =====
-- `_discover_log_files` of blue_team_agent.py.
use security_review_ai.Prelude.{
  ℕ, suc, ◌≤◌, ◌<◌, ◌≡◌, refl, sym, String, str_eq, Bool, true, false, false≢true, ◌&&◌, not, List,
  [], ◌∷◌, ◌++◌, any, length, length-append, arith, leb, if◌then◌else◌, Bool-cases, inl, inr,
}
use security_review_ai.Prelude.Unique.{Unique, Unique-append}
use security_review_ai.Scanners.Report.{Files}

abbrev log_file_globs : List String
log_file_globs =
    "*.log" ∷ "*.log.*" ∷ "*access*.log*" ∷ "*auth*.log*" ∷ "*audit*.log*" ∷ "*.jsonl" ∷ []

abbrev pub max_log_files : ℕ
max_log_files = 20

module _ (fs : Files) where
  abbrev with_new : String → List String → List String
  with_new c l = if fs.is_file c && not (any (λ p. str_eq p c) l) then l ++ c ∷ [] else l

  -- the candidates of one pattern, and whether the search ends at them
  unfoldable pub discover_in : List String → List String → List String × Bool
  discover_in [] discovered = (discovered, false)
  discover_in (c ∷ rest) discovered =
      let next = with_new c discovered in
      let later = discover_in rest next in
      if leb max_log_files (length next) then (next, true) else later

  unfoldable pub discover : String → List String → List String → List String
  discover target [] discovered = discovered
  discover target (pattern ∷ rest) discovered =
      let found = discover_in (fs.rglob pattern target) discovered in
      let later = discover target rest found.0 in if found.1 then found.0 else later

  unfoldable pub discover_log_files : String → List String
  discover_log_files target =
      if fs.is_file target
      then target ∷ []
      else if fs.is_dir target
      then discover target log_file_globs []
      else []

  -- at most twenty, no one twice
  abbrev pub IsBounded : List String → Type 0
  IsBounded l = (length l ≤ max_log_files) × Unique str_eq l

  length-with_new : (c : String) (l : List String) → length (with_new c l) ≤ suc (length l)
  length-with_new c l = elim (Bool-cases (fs.is_file c && not (any (λ p. str_eq p c) l))) [
    | inl e ↦ rw (e, if◌then◌else◌) (ground (arith, length-append l (c ∷ [])))
    | inr e ↦ rw (e, if◌then◌else◌) (omega arith)
  ]

  with_new-Unique : (c : String) (l : List String) → Unique str_eq l → Unique str_eq (with_new c l)
  with_new-Unique c l h = elim (Bool-cases (fs.is_file c && not (any (λ p. str_eq p c) l))) [
    | inl e ↦ rw (e, if◌then◌else◌) (Unique-append str_eq l c h (ground arith))
    | inr e ↦ rw (e, if◌then◌else◌) h
  ]

  discover_in-IsBounded :
      (candidates l : List String)
      → length l < max_log_files
      → Unique str_eq l
      → let r = discover_in candidates l in
        IsBounded r.0 × (r.1 ≡ false → length r.0 < max_log_files)
  unfolding discover_in
  discover_in-IsBounded [] l short h = ((omega arith, h), λ e. short)
  discover_in-IsBounded (c ∷ rest) l short h =
      elim (Bool-cases (leb max_log_files (length (with_new c l)))) [
        | inl e ↦
            rw (e, if◌then◌else◌)
              (
                (ground (arith, length-with_new c l), with_new-Unique c l h),
                λ no. absurd (false≢true (sym no)),
              )
        | inr e ↦
            rw (e, if◌then◌else◌)
              (discover_in-IsBounded rest (with_new c l) (ground arith) (with_new-Unique c l h))
      ]

  discover-IsBounded :
      (target : String) (patterns l : List String)
      → length l < max_log_files
      → Unique str_eq l
      → IsBounded (discover target patterns l)
  unfolding discover
  discover-IsBounded target [] l short h = (omega arith, h)
  discover-IsBounded target (pattern ∷ rest) l short h =
      let r = discover_in (fs.rglob pattern target) l in
      let (bounded, goes_on) = discover_in-IsBounded (fs.rglob pattern target) l short h in
      elim (Bool-cases r.1) [
        | inl e ↦ rw (e, if◌then◌else◌) bounded
        | inr e ↦ rw (e, if◌then◌else◌) (discover-IsBounded target rest r.0 (goes_on e) bounded.1)
      ]

  in_directory :
      (target : String)
      → IsBounded (if fs.is_dir target then discover target log_file_globs [] else [])
  in_directory target = elim (Bool-cases (fs.is_dir target)) [
    | inl e ↦ rw (e, if◌then◌else◌) (discover-IsBounded target log_file_globs [] (omega arith) tt)
    | inr e ↦ rw (e, if◌then◌else◌) (omega arith, tt)
  ]

  -- For every target, the blue-team agent reads at most 20 log files, and none twice.
  pub discover_log_files-IsBounded : (target : String) → IsBounded (discover_log_files target)
  unfolding discover_log_files
  discover_log_files-IsBounded target = elim (Bool-cases (fs.is_file target)) [
    | inl e ↦ rw (e, if◌then◌else◌) (omega arith, (refl, tt))
    | inr e ↦ rw (e, if◌then◌else◌) (in_directory target)
  ]
