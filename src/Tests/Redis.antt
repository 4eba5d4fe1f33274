-- ===== src/Tests/Redis.antt =====
-- A client whose state is a dict, and two attempts of one address.
use security_review_ai.Prelude.{
  ℕ, ◌+◌, ◌*◌, ◌≡◌, ◌≢◌, refl, String, str_eq, eq_iff, eq_refl, sym, true, Option, none, some, List,
  [], ◌∷◌, arith, if◌then◌else◌, ◌∙◌, Bool-cases, inl, inr,
}
use security_review_ai.Prelude.Dict.{update_key, value_of, value_of-update_key}
use security_review_ai.Api.RateLimiter.{lookup, per_second}
use security_review_ai.Api.RateLimiter.Redis.{
  Entry, incremented, expiring, is_live, Client, IsRedis,
}
use security_review_ai.Api.RateLimiter.Refinement.{
  Attempts, decisions, decisions_redis, redis_decides_alike,
}

abbrev Store : Type 0
Store = List (String × Entry)

abbrev always : Entry → Option Entry → Entry
always e o = e

abbrev expires : ℕ → Option Entry → Entry
expires expiry none = (0, some expiry)
expires expiry (some (n, e)) = (n, some expiry)

abbrev store_client : Client
store_client = record {
  State = Store;
  incr = λ now k s.
      let e = incremented now (value_of str_eq k s) in (e.0, update_key str_eq (always e) k s);
  expire = λ now k seconds s. update_key str_eq (expires (now + seconds * per_second)) k s;
  ttl = λ now k s. none;
  scan_iter = λ pattern s. [];
  delete = λ k s. s;
  stored = λ s k. value_of str_eq k s;
}

written :
    (f : Option Entry → Entry) (k : String) (s : Store)
    → value_of str_eq k (update_key str_eq f k s) ≡ some (f (value_of str_eq k s))
written f k s = value_of-update_key str_eq eq_iff f k k s ∙ rw (eq_refl k, if◌then◌else◌) refl

unwritten :
    (f : Option Entry → Entry) (k j : String) (s : Store)
    → j ≢ k
    → value_of str_eq j (update_key str_eq f k s) ≡ value_of str_eq j s
unwritten f k j s apart =
    value_of-update_key str_eq eq_iff f k j s ∙ elim (Bool-cases (str_eq k j)) [
      | inl e ↦ absurd (apart (sym ((eq_iff k j).0 e)))
      | inr e ↦ rw (e, if◌then◌else◌) refl
    ]

expires-live :
    (now expiry : ℕ) (o : Option Entry)
    → is_live now o ≡ true
    → some (expires expiry o) ≡ expiring expiry o
expires-live now expiry none h = absurd (cc)
expires-live now expiry (some (n, e)) h = refl

store_client-IsRedis : IsRedis store_client
store_client-IsRedis = record {
  incr-count = λ now k s. refl;
  incr-stored = λ now k s. written (always (incremented now (value_of str_eq k s))) k s;
  incr-others =
      λ now k j s apart. unwritten (always (incremented now (value_of str_eq k s))) k j s apart;
  expire-stored = λ now k seconds s live.
      written (expires (now + seconds * per_second)) k s
      ∙ expires-live now (now + seconds * per_second) (value_of str_eq k s) live;
  expire-others =
      λ now k j seconds s apart. unwritten (expires (now + seconds * per_second)) k j s apart;
}

abbrev two_attempts : Attempts
two_attempts = ("10.0.0.1", 10) ∷ ("10.0.0.1", 20) ∷ []

redis_decides_alike_example :
    decisions_redis store_client "ratelimit:login:" 1 60 two_attempts []
    ≡ decisions 1 60 two_attempts []
unfolding value_of lookup
redis_decides_alike_example =
    redis_decides_alike store_client "ratelimit:login:" 1 60 store_client-IsRedis (omega arith)
      two_attempts [] [] (λ k. (refl, tt))
