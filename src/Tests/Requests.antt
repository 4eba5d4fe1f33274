-- ===== src/Tests/Requests.antt =====
-- Requests, outbound URLs, clones, and the state machines of findings and repositories.
use Prim.Native.Nat.{min}
use security_review_ai.Prelude.{
  suc, ◌+◌, ◌*◌, ◌<◌, ◌≤◌, ◌≡◌, ◌↔◌, ◌⊎◌, refl, String, true, false, ◌||◌, none, some, [], ◌∷◌,
  arith, starts_with, is_nonempty, strip,
}
use security_review_ai.Exec.{ok}
use security_review_ai.Security.OutboundUrl.{validate_public_http_url}
use security_review_ai.Security.OutboundUrl.Public.{IsPublic, validate_public_http_url_iff}
use security_review_ai.Vcs.GitIngestion.{
  GitHost, clone, clone_done, validate_repository_url, validate_branch,
}
use security_review_ai.Vcs.GitIngestion.Safety.{clone-safe}
use security_review_ai.Api.RateLimiter.{lookup, Window, retry_after, per_second}
use security_review_ai.Api.RateLimiter.Attempts.{
  Attempts, allowed_of, attempts_of, allowed_per_window, retry_after_bounds,
}
use security_review_ai.Api.Dependencies.{current_user, resolved, http_error}
use security_review_ai.Api.Dependencies.Access.{Bears, current_user_iff}
use security_review_ai.Domain.Auth.{User}
use security_review_ai.Security.PasswordHasher.{parse_int}
use security_review_ai.Scanners.Web.{header}
use security_review_ai.Tests.{net, ann, sample, deaf}

validate_public_http_url_iff_example :
    (validate_public_http_url net "https://example.org/x" ≡ ok "https://example.org/x")
    ↔ IsPublic net "https://example.org/x"
validate_public_http_url_iff_example = validate_public_http_url_iff net "https://example.org/x"

abbrev git : GitHost
git = record {
  dest = λ id. "/clones/3";
  run_clone = λ branch url dest. clone_done;
  rev_parse = λ dest. some "abc";
}

clone-safe_example :
    ((starts_with "https://example.org/x" "https://"
        || starts_with "https://example.org/x" "http://")
      ≡ true)
    × (starts_with "https://example.org/x" "-" ≡ false)
    × ((u : String) × (validate_public_http_url net "https://example.org/x" ≡ ok u))
    × ((b : String) × (is_nonempty b ≡ true)
        × (starts_with b "-" ≡ false)
        × (git.run_clone b "https://example.org/x" (git.dest 3) ≡ clone_done))
    × ("/clones/3" ≡ git.dest 3)
unfolding clone validate_repository_url strip starts_with validate_public_http_url validate_branch
clone-safe_example =
    clone-safe net git "https://example.org/x" "main" 3
      (record { local_path = "/clones/3"; commit_hash = "abc" }) refl

abbrev tries : Attempts
tries = ("10.0.0.1", 20) ∷ ("10.0.0.2", 30) ∷ ("10.0.0.1", 40) ∷ []

allowed_per_window_example :
    allowed_of 2 60 "10.0.0.1" (("10.0.0.1", 10) ∷ tries) []
    ≡ min (suc (attempts_of "10.0.0.1" tries)) 2
unfolding lookup
allowed_per_window_example =
    allowed_per_window 2 60 "10.0.0.1" 10 tries [] (omega arith) tt
      ((λ e. omega arith), ((λ e. omega arith), ((λ e. omega arith), tt)))

retry_after_bounds_example :
    let w : Window = record { window_start = 1000000; count = 11 } in
    (1 ≤ retry_after 2500000 60 w)
    × ((retry_after 2500000 60 w ≡ 1)
        ⊎ (2500000 + retry_after 2500000 60 w * per_second ≤ w.window_start + 60 * per_second))
    × (w.window_start + 60 * per_second < 2500000 + suc (retry_after 2500000 60 w) * per_second)
retry_after_bounds_example =
    retry_after_bounds 2500000 60 (record { window_start = 1000000; count = 11 }) (omega arith)
      (omega arith)

current_user_iff_example :
    ((current_user deaf 5 (some "Bearer abc") sample ≡ resolved ann)
      ↔ Bears deaf 5 "Bearer abc" sample ann)
    × ((current_user deaf 5 (some "Bearer abc") sample ≡ http_error 401)
        ⊎ ((v : User) × (current_user deaf 5 (some "Bearer abc") sample ≡ resolved v)))
current_user_iff_example = current_user_iff deaf 5 "Bearer abc" sample ann

parse_int-texts :
    (parse_int " +39_0 " ≡ some 390)
    × (parse_int "39_" ≡ none)
    × (parse_int "-1" ≡ none)
    × (parse_int "" ≡ none)
unfolding parse_int
parse_int-texts = (refl, refl, refl, refl)

header-of_repeated :
    header "vary" (("vary", "accept") ∷ ("server", "x") ∷ ("vary", "cookie") ∷ [])
    ≡ some "accept, cookie"
header-of_repeated = refl
