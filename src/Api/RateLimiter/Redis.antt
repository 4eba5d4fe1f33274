-- ===== src/Api/RateLimiter/Redis.antt =====
-- The Redis backend of rate_limiter.py, and the choice of the backend. A client is a parameter: its
-- state, and the commands that the backend sends.
use security_review_ai.Prelude.{
  ℕ, suc, ◌+◌, ◌*◌, ◌≡◌, ◌≢◌, String, Bool, true, false, Option, none, some, List, [], ◌∷◌, concat,
  is_truthy, ltb, leb, ◌==◌, if◌then◌else◌,
}
use security_review_ai.Api.RateLimiter.{Verdict, allowed, too_many_requests, per_second}

-- the value of a key, and the time at which it expires
abbrev pub Entry : Type 0
Entry = ℕ × Option ℕ

abbrev pub is_live : ℕ → Option Entry → Bool
is_live now none = false
is_live now (some (n, none)) = true
is_live now (some (n, some expiry)) = ltb now expiry

-- INCR: a missing or expired key counts as 0 and gets no expiry, and a key keeps the one that it has
abbrev pub incremented : ℕ → Option Entry → Entry
incremented now none = (1, none)
incremented now (some (n, none)) = (suc n, none)
incremented now (some (n, some expiry)) = if ltb now expiry then (suc n, some expiry) else (1, none)

-- EXPIRE on a key that is there
abbrev pub expiring : ℕ → Option Entry → Option Entry
expiring expiry none = none
expiring expiry (some (n, e)) = some (n, some expiry)

pub record Client : Type 1 where
  pub State : Type 0
  pub incr : ℕ → String → State → ℕ × State
  pub expire : ℕ → String → ℕ → State → State
  -- `none` where TTL answers a negative number
  pub ttl : ℕ → String → State → Option ℕ
  pub scan_iter : String → State → List String
  pub delete : String → State → State
  -- what was last written to a key
  pub stored : State → String → Option Entry

-- the documented behaviour of INCR and EXPIRE
pub record IsRedis (c : Client) : Type 0 where
  pub incr-count :
      (now : ℕ) (k : String) (s : c.State) → (c.incr now k s).0 ≡ (incremented now (c.stored s k)).0
  pub incr-stored :
      (now : ℕ) (k : String) (s : c.State)
      → c.stored (c.incr now k s).1 k ≡ some (incremented now (c.stored s k))
  pub incr-others :
      (now : ℕ) (k j : String) (s : c.State) → j ≢ k → c.stored (c.incr now k s).1 j ≡ c.stored s j
  pub expire-stored :
      (now : ℕ) (k : String) (seconds : ℕ) (s : c.State)
      → is_live now (c.stored s k) ≡ true
      → c.stored (c.expire now k seconds s) k ≡ expiring (now + seconds * per_second) (c.stored s k)
  pub expire-others :
      (now : ℕ) (k j : String) (seconds : ℕ) (s : c.State)
      → j ≢ k
      → c.stored (c.expire now k seconds s) j ≡ c.stored s j

module _ (c : Client) (key_prefix : String) where
  -- `ttl if ttl and ttl > 0 else window_seconds`
  abbrev wait : ℕ → Option ℕ → ℕ
  wait window_seconds none = window_seconds
  wait window_seconds (some t) = if leb 1 t then t else window_seconds

  abbrev pub expire_first : ℕ → String → ℕ → ℕ × c.State → c.State
  expire_first now key window_seconds (count, s) =
      if count == 1 then c.expire now key window_seconds s else s

  -- `RedisRateLimiterBackend.increment`
  unfoldable pub increment_redis : String → ℕ → ℕ → c.State → (ℕ × ℕ) × c.State
  increment_redis key window_seconds now s =
      let full_key = concat key_prefix key in
      let r = c.incr now full_key s in
      let s' = expire_first now full_key window_seconds r in
      ((r.0, wait window_seconds (c.ttl now full_key s')), s')

  abbrev delete_all : List String → c.State → c.State
  delete_all [] s = s
  delete_all (k ∷ rest) s = delete_all rest (c.delete k s)

  -- `RedisRateLimiterBackend.reset`
  unfoldable pub reset_redis : c.State → c.State
  reset_redis s = delete_all (c.scan_iter (concat key_prefix "*") s) s

  -- `_FixedWindowRateLimiter.check` with this backend
  unfoldable pub check_redis : ℕ → ℕ → String → ℕ → c.State → Verdict × c.State
  unfolding increment_redis
  check_redis max_attempts window_seconds key now s =
      let (r, s') = increment_redis key window_seconds now s in
      (if ltb max_attempts r.0 then too_many_requests r.1 else allowed, s')

pub data Backend : Type 0 where
  in_memory redis : Backend

-- `_create_backend`: `reachable` says that the package is there, the URL is good and PING answers
unfoldable pub create_backend : Option String → (String → Bool) → Backend
create_backend none reachable = in_memory
create_backend (some url) reachable =
    if is_truthy (some url) then (if reachable url then redis else in_memory) else in_memory
