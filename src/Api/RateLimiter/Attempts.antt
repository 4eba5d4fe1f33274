-- ===== src/Api/RateLimiter/Attempts.antt =====
-- How many attempts of one client pass, among those of all clients.
use Prim.Native.Nat.{min}
use security_review_ai.Prelude.{
  ℕ, suc, ◌+◌, ◌-◌, ◌*◌, ◌≤◌, ◌<◌, ◌≡◌, refl, String, str_eq, eq_iff, true, false, Option, none,
  some, List, [], ◌∷◌, arith, ltb, ◌∙◌, eq_refl, if◌then◌else◌, Bool-cases, inl, inr, ◌⊎◌,
}
use security_review_ai.Api.RateLimiter.{
  Window, Windows, lookup, insert, check, Verdict, allowed, too_many_requests, next_window,
  per_second, retry_after,
}

pub lookup-insert :
    (k j : String) (w : Window) (t : Windows)
    → lookup j (insert k w t) ≡ (if str_eq k j then some w else lookup j t)
unfolding lookup insert
lookup-insert k j w [] = refl
lookup-insert k j w ((i, v) ∷ t) =
    ground (arith, eq_iff k j, eq_iff i k, eq_iff i j, lookup-insert k j w t)

abbrev is_allowed : Verdict → ℕ
is_allowed allowed = 1
is_allowed (too_many_requests n) = 0

-- the attempts of all clients, each a key and a time
abbrev pub Attempts : Type 0
Attempts = List (String × ℕ)

abbrev pub attempts_of : String → Attempts → ℕ
attempts_of k [] = 0
attempts_of k ((j, now) ∷ rest) = let n = attempts_of k rest in if str_eq j k then suc n else n

-- the attempts of `k` that are allowed, when the attempts are checked one after the other
pub allowed_of : ℕ → ℕ → String → Attempts → Windows → ℕ
allowed_of max seconds k [] t = 0
allowed_of max seconds k ((j, now) ∷ rest) t =
    let (v, t') = check max seconds j now t in
    let n = allowed_of max seconds k rest t' in if str_eq j k then is_allowed v + n else n

-- the attempts of `k` fall in the window that begins at a time
abbrev pub InWindow : ℕ → String → ℕ → Attempts → Type 0
InWindow seconds k start [] = Unit
InWindow seconds k start ((j, now) ∷ rest) =
    (str_eq j k ≡ true → now < start + seconds * per_second) × InWindow seconds k start rest

-- the window of an attempt that falls in it
next_in_window :
    (now seconds : ℕ) (w : Window)
    → now < w.window_start + seconds * per_second
    → 0 < seconds
    → next_window now seconds (some w)
      ≡ record { window_start = w.window_start; count = suc w.count }
next_in_window now seconds w h pos = ground arith

module _ (max seconds : ℕ) (k : String) where
  verdict_in_window :
      (now : ℕ) (w : Window) (t : Windows)
      → lookup k t ≡ some w
      → now < w.window_start + seconds * per_second
      → 0 < seconds
      → is_allowed (check max seconds k now t).0 ≡ (if ltb max (suc w.count) then 0 else 1)
  unfolding check
  verdict_in_window now w t e h pos = rw (e, next_in_window now seconds w h pos) (ground arith)

  state_in_window :
      (now : ℕ) (w : Window) (t : Windows)
      → lookup k t ≡ some w
      → now < w.window_start + seconds * per_second
      → 0 < seconds
      → lookup k (check max seconds k now t).1
        ≡ some (record { window_start = w.window_start; count = suc w.count })
  unfolding check
  state_in_window now w t e h pos =
      rw (lookup-insert k k _ t) (rw (eq_refl k, e, next_in_window now seconds w h pos) refl)

  -- an attempt of another key
  state_of_other :
      (j : String) (now : ℕ) (t : Windows)
      → str_eq j k ≡ false
      → lookup k (check max seconds j now t).1 ≡ lookup k t
  unfolding check
  state_of_other j now t other = rw lookup-insert (rw other)

  allowed-InWindow :
      (seq : Attempts) (w : Window) (t : Windows)
      → 0 < seconds
      → lookup k t ≡ some w
      → InWindow seconds k w.window_start seq
      → allowed_of max seconds k seq t ≡ min (attempts_of k seq) (max - w.count)
  unfolding allowed_of
  allowed-InWindow [] w t pos e h = ground arith
  allowed-InWindow ((j, now) ∷ rest) w t pos e (h, hs) = elim (Bool-cases (str_eq j k)) [
    | inl same ↦
        let w' : Window = record { window_start = w.window_start; count = suc w.count } in
        let t' = (check max seconds k now t).1 in
        let j≡k = (eq_iff j k).0 same in
        let in_time = h same in
        rw same (
          rw j≡k (
            ground (
              arith,
              verdict_in_window now w t e in_time pos,
              allowed-InWindow rest w' t' pos (state_in_window now w t e in_time pos) hs,
            )))
    | inr other ↦
        let t' = (check max seconds j now t).1 in
        rw other (allowed-InWindow rest w t' pos (state_of_other j now t other ∙ e) hs)
  ]

-- no window of the key is running at a time
abbrev pub IsFresh : ℕ → ℕ → Option Window → Type 0
IsFresh seconds now none = Unit
IsFresh seconds now (some w) = w.window_start + seconds * per_second ≤ now

next_window_fresh :
    (seconds now : ℕ) (o : Option Window)
    → IsFresh seconds now o
    → next_window now seconds o ≡ record { window_start = now; count = 1 }
next_window_fresh seconds now none h = refl
next_window_fresh seconds now (some w) h = ground arith

module _ (max seconds : ℕ) (k : String) where
  -- Take a client with no running window, and any attempts of all clients after its first one, in
  -- any order, its own ones before the window of a positive length ends. Of its attempts as many
  -- are allowed as it makes, but at most the maximum.
  pub allowed_per_window :
      (now : ℕ) (rest : Attempts) (t : Windows)
      → 0 < seconds
      → IsFresh seconds now (lookup k t)
      → InWindow seconds k now rest
      → allowed_of max seconds k ((k, now) ∷ rest) t ≡ min (suc (attempts_of k rest)) max
  unfolding allowed_of
  allowed_per_window now rest t pos fresh h =
      let w : Window = record { window_start = now; count = 1 } in
      let t' = (check max seconds k now t).1 in
      rw (eq_refl k) (
        ground (
          arith,
          fresh_verdict now t fresh,
          allowed-InWindow max seconds k rest w t' pos (fresh_state now t fresh) h,
        ))
    where
      fresh_verdict :
          (now : ℕ) (t : Windows)
          → IsFresh seconds now (lookup k t)
          → is_allowed (check max seconds k now t).0 ≡ (if ltb max 1 then 0 else 1)
      fresh_verdict now t fresh =
          unfold check in rw (next_window_fresh seconds now (lookup k t) fresh) (ground arith)

      fresh_state :
          (now : ℕ) (t : Windows)
          → IsFresh seconds now (lookup k t)
          → lookup k (check max seconds k now t).1 ≡ some (record { window_start = now; count = 1 })
      fresh_state now t fresh =
          unfold check in
          rw (lookup-insert k k _ t)
            (rw (eq_refl k, next_window_fresh seconds now (lookup k t) fresh) refl)

-- Within a window, the Retry-After that a refused client is told is at least a second; it is one
-- second or it does not reach past the end of the window, and it falls short of the end by less
-- than a second.
pub retry_after_bounds :
    (now seconds : ℕ) (w : Window)
    → w.window_start ≤ now
    → now < w.window_start + seconds * per_second
    → (1 ≤ retry_after now seconds w)
      × ((retry_after now seconds w ≡ 1)
          ⊎ (now + retry_after now seconds w * per_second ≤ w.window_start + seconds * per_second))
      × (w.window_start + seconds * per_second < now + suc (retry_after now seconds w) * per_second)
retry_after_bounds now seconds w h k = ground arith
