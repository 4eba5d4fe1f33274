-- ===== src/Api/RateLimiter/Refinement.antt =====
-- Both backends decide alike.
use text.Mathlib.TextLemmas.{append_cancel_left}
use security_review_ai.Prelude.{
  ℕ, ◌+◌, ◌*◌, ◌≤◌, ◌≡◌, ◌≢◌, refl, sym, ap, ◌∙◌, String, str_eq, eq_iff, Bool, true, false,
  false≢true, not, some, List, [], ◌∷◌, concat, ltb, ◌==◌, if◌then◌else◌, Bool-cases, inl, inr,
}
use security_review_ai.Api.RateLimiter.{
  Windows, lookup, next_window, check, Verdict, allowed, too_many_requests, per_second,
}
use security_review_ai.Api.RateLimiter.Redis.{
  incremented, expiring, Client, IsRedis, expire_first, check_redis,
}
use security_review_ai.Api.RateLimiter.Entries.{
  count_of, lookup-insert, entry_of, left_by, left_by-count, IsCounted, left_by-next_window,
  next_window-IsCounted, incremented-live,
}

abbrev is_allowed : Verdict → Bool
is_allowed allowed = true
is_allowed (too_many_requests seconds) = false

allowed-if : (b : Bool) (n : ℕ) → is_allowed (if b then too_many_requests n else allowed) ≡ not b
allowed-if true n = refl
allowed-if false n = refl

module _ (c : Client) (laws : IsRedis c) (p : String) (seconds : ℕ) where
  abbrev after_attempt : ℕ → String → c.State → c.State
  after_attempt now key s = expire_first c p now key seconds (c.incr now key s)

  after_attempt-stored :
      (now : ℕ) (key : String) (s : c.State)
      → c.stored (after_attempt now key s) key ≡ some (left_by seconds now (c.stored s key))
  after_attempt-stored now key s =
      let o = c.stored s key in
      elim (Bool-cases ((incremented now o).0 == 1)) [
        | inl e ↦
            rw (laws.incr-count now key s, e, if◌then◌else◌)
              (laws.expire-stored now key seconds (c.incr now key s).1
                  (rw (laws.incr-stored now key s) (incremented-live now o))
                ∙ ap (expiring (now + seconds * per_second)) (laws.incr-stored now key s))
        | inr e ↦ rw (laws.incr-count now key s, e, if◌then◌else◌) (laws.incr-stored now key s)
      ]

  after_attempt-others :
      (now : ℕ) (key j : String) (s : c.State)
      → j ≢ key
      → c.stored (after_attempt now key s) j ≡ c.stored s j
  after_attempt-others now key j s apart = elim (Bool-cases ((c.incr now key s).0 == 1)) [
    | inl e ↦
        rw (e, if◌then◌else◌)
          (laws.expire-others now key j seconds (c.incr now key s).1 apart
            ∙ laws.incr-others now key j s apart)
    | inr e ↦ rw (e, if◌then◌else◌) (laws.incr-others now key j s apart)
  ]

-- which attempts are allowed, when they are checked one after the other
abbrev pub Attempts : Type 0
Attempts = List (String × ℕ)

abbrev pub decisions : ℕ → ℕ → Attempts → Windows → List Bool
decisions max seconds [] t = []
decisions max seconds ((key, now) ∷ rest) t =
    let (v, t') = check max seconds key now t in is_allowed v ∷ decisions max seconds rest t'

module _ (c : Client) (p : String) (max seconds : ℕ) where
  abbrev pub decisions_redis : Attempts → c.State → List Bool
  decisions_redis [] s = []
  decisions_redis ((key, now) ∷ rest) s =
      let (v, s') = check_redis c p max seconds key now s in is_allowed v ∷ decisions_redis rest s'

  -- each key of Redis has the window of the table, with its end as the expiry
  abbrev pub IsRelated : c.State → Windows → Type 0
  IsRelated s t =
      (k : String)
      → (c.stored s (concat p k) ≡ entry_of seconds (lookup k t)) × IsCounted (lookup k t)

  module _ (laws : IsRedis c) (pos : 1 ≤ seconds) where
    attempt_entry :
        (key : String) (now : ℕ) (s : c.State) (t : Windows)
        → IsRelated s t
        → some (left_by seconds now (c.stored s (concat p key)))
          ≡ entry_of seconds (some (next_window now seconds (lookup key t)))
    attempt_entry key now s t h =
        ap (λ o. some (left_by seconds now o)) (h key).0
        ∙ left_by-next_window seconds pos now (lookup key t) (h key).1

    new_entry :
        (key : String) (now : ℕ) (s : c.State) (t : Windows)
        → IsRelated s t
        → c.stored (after_attempt c laws p seconds now (concat p key) s) (concat p key)
          ≡ entry_of seconds (some (next_window now seconds (lookup key t)))
    new_entry key now s t h =
        after_attempt-stored c laws p seconds now (concat p key) s ∙ attempt_entry key now s t h

    new_count :
        (key : String) (now : ℕ) (s : c.State) (t : Windows)
        → IsRelated s t
        → (c.incr now (concat p key) s).0 ≡ (next_window now seconds (lookup key t)).count
    new_count key now s t h =
        laws.incr-count now (concat p key) s
        ∙ sym (left_by-count seconds now (c.stored s (concat p key)))
        ∙ ap count_of (attempt_entry key now s t h)

    other_key : (key k : String) → str_eq key k ≡ false → concat p k ≢ concat p key
    other_key key k e same =
        false≢true (sym e ∙ (eq_iff key k).1 (sym (append_cancel_left p k key same)))

    check-IsRelated :
        (key : String) (now : ℕ) (s : c.State) (t : Windows)
        → IsRelated s t
        → IsRelated (check_redis c p max seconds key now s).1 (check max seconds key now t).1
    unfolding check_redis check
    check-IsRelated key now s t h k =
        let w = next_window now seconds (lookup key t) in
        let found = lookup-insert key k w t in
        elim (Bool-cases (str_eq key k)) [
          | inl e ↦
              rw (found, e, if◌then◌else◌)
                (rw (sym ((eq_iff key k).0 e))
                  (new_entry key now s t h, next_window-IsCounted seconds pos now (lookup key t)))
          | inr e ↦
              rw (found, e, if◌then◌else◌)
                (
                  after_attempt-others c laws p seconds now (concat p key) (concat p k) s
                        (other_key key k e)
                      ∙ (h k).0,
                  (h k).1,
                )
        ]

    check-agrees :
        (key : String) (now : ℕ) (s : c.State) (t : Windows)
        → IsRelated s t
        → is_allowed (check_redis c p max seconds key now s).0
          ≡ is_allowed (check max seconds key now t).0
    unfolding check_redis check
    check-agrees key now s t h =
        allowed-if _ _ ∙ ap (λ n. not (ltb max n)) (new_count key now s t h) ∙ sym (allowed-if _ _)

    -- Take a client whose INCR and EXPIRE behave as documented, a window of a positive length,
    -- and a state of Redis in which each prefixed key has the count of the window of its address
    -- in the table of the in-memory backend and expires at its end. For every sequence of
    -- attempts, the Redis backend then allows exactly the attempts that the in-memory backend
    -- allows.
    pub redis_decides_alike :
        (attempts : Attempts) (s : c.State) (t : Windows)
        → IsRelated s t
        → decisions_redis attempts s ≡ decisions max seconds attempts t
    redis_decides_alike [] s t h = refl
    redis_decides_alike ((key, now) ∷ rest) s t h = rw (check-agrees key now s t h) (
        ap (λ l. is_allowed (check max seconds key now t).0 ∷ l)
          (redis_decides_alike rest (check_redis c p max seconds key now s).1
            (check max seconds key now t).1 (check-IsRelated key now s t h)))
