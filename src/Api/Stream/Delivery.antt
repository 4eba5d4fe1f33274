-- ===== src/Api/Stream/Delivery.antt =====
-- What a client of the stream receives.
use mathlib.Core.Path.{subst}
use security_review_ai.Prelude.{
  ℕ, zero, suc, ◌+◌, ◌<◌, ◌≤◌, ◌≡◌, refl, ap, sym, ◌∙◌, String, eq_iff, true, false, Option, none,
  some, List, [], ◌∷◌, ◌++◌, arith, length, if◌then◌else◌, Bool-cases, Option-cases, inl, inr,
}
use security_review_ai.Domain.Assessment.{ScanJob}
use security_review_ai.Api.Stream.{
  Event, not_found, update, has_ended, is_last, event_if_new, events_from, event_generator,
  max_polls,
}

abbrev pub last_payload : Option String → List Event → Option String
last_payload last [] = last
last_payload last (update p ∷ t) = last_payload (some p) t
last_payload last (not_found ∷ t) = last_payload last t

-- no update repeats the one before it
abbrev pub IsNews : Option String → List Event → Type 0
IsNews last [] = Unit
IsNews last (not_found ∷ t) = IsNews last t
IsNews last (update p ∷ t) = (is_last last p ≡ false) × IsNews (some p) t

is_last-eq : (last : Option String) (p : String) → is_last last p ≡ true → last ≡ some p
is_last-eq none p h = absurd (cc)
is_last-eq (some q) p h = ap (λ t. some t) (sym ((eq_iff p q).0 h))

IsNews-event_if_new :
    (last : Option String) (p : String) (t : List Event)
    → IsNews (some p) t
    → IsNews last (event_if_new last p ++ t)
IsNews-event_if_new last p t h = elim (Bool-cases (is_last last p)) [
  | inl old ↦ rw (old, if◌then◌else◌) (subst (λ l. IsNews l t) (sym (is_last-eq last p old)) h)
  | inr new ↦ rw (new, if◌then◌else◌) (new, h)
]

last_payload-event_if_new :
    (last : Option String) (p : String) (t : List Event)
    → last_payload last (event_if_new last p ++ t) ≡ last_payload (some p) t
last_payload-event_if_new last p t = elim (Bool-cases (is_last last p)) [
  | inl old ↦ rw (old, if◌then◌else◌) (ap (λ l. last_payload l t) (is_last-eq last p old))
  | inr new ↦ rw (new, if◌then◌else◌) refl
]

module _ (poll : ℕ → Option ScanJob) (json : ScanJob → String) where
  events_from-gone :
      (left n : ℕ) (last : Option String)
      → poll n ≡ none
      → events_from poll json (suc left) n last ≡ not_found ∷ []
  unfolding events_from
  events_from-gone left n last e = rw (e, events_from) refl

  events_from-done :
      (left n : ℕ) (last : Option String) (j : ScanJob)
      → poll n ≡ some j
      → has_ended j.status ≡ true
      → events_from poll json (suc left) n last ≡ event_if_new last (json j) ++ []
  unfolding events_from
  events_from-done left n last j e d = rw (e, events_from) (rw (d, events_from) refl)

  events_from-runs :
      (left n : ℕ) (last : Option String) (j : ScanJob)
      → poll n ≡ some j
      → has_ended j.status ≡ false
      → events_from poll json (suc left) n last
        ≡ event_if_new last (json j) ++ events_from poll json left (suc n) (some (json j))
  unfolding events_from
  events_from-runs left n last j e d = rw (e, events_from) (rw (d, events_from) refl)

  events_from-IsNews :
      (left n : ℕ) (last : Option String) → IsNews last (events_from poll json left n last)
  unfolding events_from
  events_from-IsNews zero n last = tt
  events_from-IsNews (suc left) n last = elim (Option-cases (poll n)) [
    | inl e ↦ rw (events_from-gone left n last e) tt
    | inr (job, e) ↦ elim (Bool-cases (has_ended job.status)) [
      | inl ended ↦
          rw (events_from-done left n last job e ended) (IsNews-event_if_new last (json job) [] tt)
      | inr runs ↦ rw (events_from-runs left n last job e runs) (
          IsNews-event_if_new last (json job) _ (events_from-IsNews left (suc n) (some (json job))))
    ]
  ]

  length-events_from :
      (left n : ℕ) (last : Option String) → length (events_from poll json left n last) ≤ left
  unfolding events_from
  length-events_from zero n last = omega arith
  length-events_from (suc left) n last = elim (Option-cases (poll n)) [
    | inl e ↦ rw (events_from-gone left n last e) (omega arith)
    | inr (job, e) ↦ elim (Bool-cases (has_ended job.status)) [
      | inl ended ↦ rw (events_from-done left n last job e ended) (ground arith)
      | inr runs ↦
          rw (events_from-runs left n last job e runs)
            (ground (arith, length-events_from left (suc n) (some (json job))))
    ]
  ]

  -- the job is there and runs at the polls before the k-th from the n-th
  abbrev pub Runs : ℕ → ℕ → Type 0
  Runs n zero = Unit
  Runs n (suc k) =
      ((j : ScanJob) × (poll n ≡ some j) × (has_ended j.status ≡ false)) × Runs (suc n) k

  events_from-ended :
      (k left n : ℕ) (last : Option String) (j : ScanJob)
      → k < left
      → Runs n k
      → poll (n + k) ≡ some j
      → has_ended j.status ≡ true
      → last_payload last (events_from poll json left n last) ≡ some (json j)
  unfolding events_from
  events_from-ended k zero n last j h r e d = absurd (omega arith)
  events_from-ended zero (suc left) n last j h r e d =
      rw (events_from-done left n last j (ap poll (omega arith) ∙ e) d)
        (last_payload-event_if_new last (json j) [])
  events_from-ended (suc k) (suc left) n last j h ((i, p, q), r) e d =
      rw (events_from-runs left n last i p q) (
        last_payload-event_if_new last (json i) _
        ∙ events_from-ended k left (suc n) (some (json i)) j (omega arith) r
            (ap poll (omega arith) ∙ e) d)

  -- Whatever the polls find, no update of the event stream repeats the update before it, and the
  -- stream has at most 600 events.
  pub event_generator-IsNews :
      IsNews none (event_generator poll json) × (length (event_generator poll json) ≤ max_polls)
  unfolding event_generator
  event_generator-IsNews =
      (events_from-IsNews max_polls 0 none, length-events_from max_polls 0 none)

  -- If a scan job is found and has not ended at the polls before the k-th, with k below 600, and
  -- has ended at the k-th, the last update of the event stream is the state of the job at the
  -- k-th poll.
  pub event_generator-ended :
      (k : ℕ) (j : ScanJob)
      → k < max_polls
      → Runs 0 k
      → poll k ≡ some j
      → has_ended j.status ≡ true
      → last_payload none (event_generator poll json) ≡ some (json j)
  unfolding event_generator
  event_generator-ended k j h r e d =
      events_from-ended k max_polls 0 none j h r (ap poll (omega arith) ∙ e) d
