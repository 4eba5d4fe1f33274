-- ===== src/Api/RateLimiter.antt =====
-- rate_limiter.py with the in-memory backend. A clock reading is a number of microseconds, as
-- `time.monotonic` returns it; a window is a number of seconds.
pub mod Attempts
pub mod Redis
pub mod Entries
pub mod Refinement
use security_review_ai.Prelude.{
  ℕ, suc, ◌+◌, ◌-◌, ◌*◌, ◌/◌, String, str_eq, Bool, true, false, Option, none, some, List, [], ◌∷◌,
  leb, ltb, if◌then◌else◌,
}

-- the value of a key in `_windows`
pub record Window : Type 0 where
  pub window_start : ℕ
  pub count : ℕ

abbrev pub Windows : Type 0
Windows = List (String × Window)

-- self._windows.get(key)
unfoldable pub lookup : String → Windows → Option Window
lookup k [] = none
lookup k ((j, w) ∷ t) = if str_eq j k then some w else lookup k t

-- self._windows[key] = w
unfoldable pub insert : String → Window → Windows → Windows
insert k w [] = (k, w) ∷ []
insert k w ((j, v) ∷ t) = if str_eq j k then (j, w) ∷ t else (j, v) ∷ insert k w t

abbrev pub per_second : ℕ
per_second = 1000000

abbrev is_over : ℕ → ℕ → Window → Bool
is_over now window_seconds w = leb (window_seconds * per_second) (now - w.window_start)

-- the window of this attempt, with the attempt counted
abbrev pub next_window : ℕ → ℕ → Option Window → Window
next_window now window_seconds none = record { window_start = now; count = 1 }
next_window now window_seconds (some w) =
    if is_over now window_seconds w
    then record { window_start = now; count = 1 }
    else record { window_start = w.window_start; count = suc w.count }

-- max(1, int(window_seconds - (now - window_start)))
abbrev pub retry_after : ℕ → ℕ → Window → ℕ
retry_after now window_seconds w =
    let left = (window_seconds * per_second - (now - w.window_start)) / per_second in
    if leb 1 left then left else 1

-- the new count, the seconds to wait, and the table
unfoldable pub increment : String → ℕ → ℕ → Windows → (ℕ × ℕ) × Windows
increment key window_seconds now t =
    let w = next_window now window_seconds (lookup key t) in
    ((w.count, retry_after now window_seconds w), insert key w t)

pub data Verdict : Type 0 where
  allowed : Verdict
  -- HTTP 429 with the Retry-After header
  too_many_requests : ℕ → Verdict

-- `_FixedWindowRateLimiter.check`
unfoldable pub check : ℕ → ℕ → String → ℕ → Windows → Verdict × Windows
unfolding increment
check max_attempts window_seconds key now t =
    let (r, t') = increment key window_seconds now t in
    (if ltb max_attempts r.0 then too_many_requests r.1 else allowed, t')

-- `_client_ip`
unfoldable pub client_ip : Option String → String
client_ip none = "unknown"
client_ip (some host) = host

-- `reset`
unfoldable pub reset : Windows → Windows
reset t = []
