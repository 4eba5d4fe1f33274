-- ===== src/Scanners/BlueTeam/Thresholds.antt =====
-- When the analysis of logs reports a brute-force attack.
use security_review_ai.Prelude.{
  ℕ, suc, ◌+◌, ◌<◌, ◌≡◌, ◌↔◌, refl, ap, String, str_eq, eq_iff, Bool, true, false, ◌&&◌, Option,
  none, some, List, [], ◌∷◌, any, arith, leb, flat_map, if◌then◌else◌, Bool-cases, inl, inr,
}
use security_review_ai.Prelude.Dict.{
  value_of, IsDict, holds, update_key-IsDict, value_of-update_key, any-values,
}
use security_review_ai.Scanners.Report.{Files}
use security_review_ai.Scanners.BlueTeam.Logs.{
  same_source, one_more, Tally, empty_tally, failed_login, count_failed, scan_line, scan_lines,
  lines_of, scan_files, brute_force_event, brute_force_threshold,
}

abbrev is_from : String → Option String → Bool
is_from ip none = false
is_from ip (some source) = str_eq source ip

abbrev number : Option ℕ → ℕ
number none = 0
number (some n) = n

abbrev pair : String → String → String × String
pair f i = (f, i)

same_parts : (f g i j : String) → f ≡ g → i ≡ j → pair f i ≡ pair g j
same_parts f g i j e h = rw (e, h) refl

same_source_iff : (a b : String × String) → (same_source a b ≡ true) ↔ (a ≡ b)
same_source_iff (f, i) (g, j) = (
  λ e. same_parts f g i j ((eq_iff f g).0 (ground arith)) ((eq_iff i j).0 (ground arith)),
  λ e. ground (arith, (eq_iff f g).1 (ap (λ p. p.0) e), (eq_iff i j).1 (ap (λ p. p.1) e)),
)

abbrev is_many : ℕ → Bool
is_many n = leb brute_force_threshold n

reported_iff : (k : String × String) (n : ℕ) → (brute_force_event (k, n) ≡ []) ↔ (is_many n ≡ false)
reported_iff k n = elim (Bool-cases (is_many n)) [
  | inl e ↦ rw e (λ h. absurd (cc), λ h. absurd (cc))
  | inr e ↦ rw e (λ h. refl, λ h. refl)
]

no_events_iff :
    (t : List ((String × String) × ℕ))
    → (flat_map brute_force_event t ≡ []) ↔ (any (λ (k, n). is_many n) t ≡ false)
no_events_iff [] = (λ e. refl, λ e. refl)
no_events_iff ((k, n) ∷ t) = elim (Bool-cases (is_many n)) [
  | inl e ↦ rw e (λ h. absurd (cc), λ h. absurd (cc))
  | inr e ↦ rw e (no_events_iff t)
]

count_failed-IsDict :
    (f : String) (o : Option String) (t : List ((String × String) × ℕ))
    → IsDict same_source t
    → IsDict same_source (count_failed f o t)
count_failed-IsDict f none t h = h
count_failed-IsDict f (some source) t h =
    update_key-IsDict same_source same_source_iff one_more (f, source) t h

holds-is_many : (o : Option ℕ) → holds same_source is_many o ≡ is_many (number o)
holds-is_many none = refl
holds-is_many (some n) = refl

one_counted : (o : Option ℕ) → number (some (one_more o)) ≡ 1 + number o
one_counted none = omega arith
one_counted (some n) = omega arith

module _ (file ip : String) where
  abbrev hit : String → Option String → ℕ
  hit f o = if str_eq f file && is_from ip o then 1 else 0

  number-count_failed :
      (f : String) (o : Option String) (t : List ((String × String) × ℕ))
      → number (value_of same_source (file, ip) (count_failed f o t))
        ≡ hit f o + number (value_of same_source (file, ip) t)
  number-count_failed f none t = ground arith
  number-count_failed f (some source) t =
      rw (value_of-update_key same_source same_source_iff one_more (f, source) (file, ip) t)
        (elim (Bool-cases (same_source (f, source) (file, ip))) [
          | inl e ↦
              rw (e, if◌then◌else◌)
                (rw ((same_source_iff (f, source) (file, ip)).0 e)
                  (one_counted (value_of same_source (file, ip) t)))
          | inr e ↦ rw (e, if◌then◌else◌) (omega arith)
        ])

module _ (fs : Files) (file ip : String) where
  -- the failed logins of a source in the lines of a file
  abbrev failures_in : String → List String → ℕ
  failures_in f [] = 0
  failures_in f (line ∷ rest) =
      let n = failures_in f rest in
      if str_eq f file && is_from ip (failed_login fs line) then suc n else n

  -- and in the log files that are read
  abbrev pub failures : List String → ℕ
  failures [] = 0
  failures (f ∷ rest) = failures_in f (lines_of fs f) + failures rest

  number-scan_lines :
      (f : String) (ls : List String) (t : Tally)
      → number (value_of same_source (file, ip) (scan_lines fs f ls t).brute_force)
        ≡ failures_in f ls + number (value_of same_source (file, ip) t.brute_force)
  unfolding scan_lines
  number-scan_lines f [] t = omega arith
  number-scan_lines f (line ∷ rest) t = ground (
    arith,
    number-scan_lines f rest (scan_line fs f line t),
    number-count_failed file ip f (failed_login fs line) t.brute_force,
  )

  number-scan_files :
      (files : List String) (t : Tally)
      → number (value_of same_source (file, ip) (scan_files fs files t).brute_force)
        ≡ failures files + number (value_of same_source (file, ip) t.brute_force)
  unfolding scan_files
  number-scan_files [] t = omega arith
  number-scan_files (f ∷ rest) t = omega (
    arith,
    number-scan_files rest (scan_lines fs f (lines_of fs f) t),
    number-scan_lines f (lines_of fs f) t,
  )

module _ (fs : Files) where
  scan_lines-IsDict :
      (f : String) (ls : List String) (t : Tally)
      → IsDict same_source t.brute_force
      → IsDict same_source (scan_lines fs f ls t).brute_force
  unfolding scan_lines
  scan_lines-IsDict f [] t h = h
  scan_lines-IsDict f (line ∷ rest) t h =
      scan_lines-IsDict f rest (scan_line fs f line t)
        (count_failed-IsDict f (failed_login fs line) t.brute_force h)

  scan_files-IsDict :
      (files : List String) (t : Tally)
      → IsDict same_source t.brute_force
      → IsDict same_source (scan_files fs files t).brute_force
  unfolding scan_files
  scan_files-IsDict [] t h = h
  scan_files-IsDict (f ∷ rest) t h =
      scan_files-IsDict rest (scan_lines fs f (lines_of fs f) t)
        (scan_lines-IsDict f (lines_of fs f) t h)

  -- For any list of log files, the counter of the blue-team agent, which counts each source in
  -- each file by itself, leads to no brute-force finding exactly when every source has, in every
  -- file, fewer than five failed logins among the lines that are read; failed logins of one
  -- source in several files are not added up.
  pub brute_force_iff :
      (files : List String)
      → (flat_map brute_force_event (scan_files fs files empty_tally).brute_force ≡ [])
        ↔ ((file ip : String) → failures fs file ip files < brute_force_threshold)
  unfolding value_of
  brute_force_iff files =
      let t = (scan_files fs files empty_tally).brute_force in
      let is_dict = scan_files-IsDict files empty_tally tt in
      let values = any-values same_source same_source_iff is_many t is_dict in
      (
        λ h file ip. ground (
          arith,
          holds-is_many (value_of same_source (file, ip) t),
          values.0 ((no_events_iff t).0 h) (file, ip),
          number-scan_files fs file ip files empty_tally,
        ),
        λ h. (no_events_iff t).1 (
            values.1 (λ (file, ip). ground (
              arith,
              holds-is_many (value_of same_source (file, ip) t),
              h file ip,
              number-scan_files fs file ip files empty_tally,
            ))),
      )
