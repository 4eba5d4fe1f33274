-- ===== src/Tests/Agents.antt =====
-- The agents, on a small directory, its logs and a small web site.
use security_review_ai.Prelude.{
  split_once, cons_first, rstrip_if, is_space, ◌<◌, ◌≤◌, ◌≡◌, ◌↔◌, refl, String, str_eq, true,
  false, Option, none, some, List, [], ◌∷◌, any, length, starts_with, concat, contains, flat_map,
  if◌then◌else◌,
}
use security_review_ai.Domain.Assessment.{FindingSeverity}
use security_review_ai.Scanners.Report.{Draft, draft, Files}
use security_review_ai.Scanners.RedTeam.{chain_attack_paths, steps_of}
use security_review_ai.Scanners.RedTeam.Chains.{is_chain_of, titles_about, chain_attack_paths_iff}
use security_review_ai.Scanners.BlueTeam.Discovery.{
  discover_log_files, IsBounded, discover_log_files-IsBounded,
}
use security_review_ai.Scanners.BlueTeam.Logs.{
  scan_files, empty_tally, brute_force_event, brute_force_threshold,
}
use security_review_ai.Scanners.BlueTeam.Thresholds.{failures, brute_force_iff}
use security_review_ai.Scanners.Web.{Reply, ParsedUrl, Web}
use security_review_ai.Scanners.BlackBox.Crawl.{crawl}
use security_review_ai.Scanners.BlackBox.Crawl.Requests.{Asks, crawl-Asks}
use security_review_ai.Scanners.BlackBox.Run.{host_of, execute_on}
use security_review_ai.Scanners.BlackBox.Scope.{Sends, execute-passive}
use security_review_ai.Scanners.ApiSecurity.Jwt.{Codec}
use security_review_ai.Scanners.ApiSecurity.Live.{is_url, execute_on as test_api}
use security_review_ai.Scanners.ApiSecurity.Scope.{Sends as ApiSends, execute-Sends}
use security_review_ai.Prelude.Dict.{value_of}
use security_review_ai.Scanners.AutoRemediation.Patch.{
  patch_text, patched, call_at, after, method_at, size,
}
use security_review_ai.Scanners.AutoRemediation.Patch.Unchanged.{all_timed}
use security_review_ai.Scanners.AutoRemediation.Run.{Host, patch_file}
use security_review_ai.Scanners.AutoRemediation.Run.Writes.{patch_file-timed}
use security_review_ai.Tests.{net}

abbrev in_app : String → Draft
in_app title = draft title FindingSeverity.high "" "/srv/app.py" ""

chain_attack_paths_iff_example :
    let findings =
      in_app "Dangerous eval() usage detected" ∷ in_app "Weak authentication check" ∷ [] in
    (any (is_chain_of "/srv/app.py") (chain_attack_paths findings) ≡ true)
    ↔ (2 ≤ length (steps_of (titles_about "/srv/app.py" findings)))
chain_attack_paths_iff_example =
    chain_attack_paths_iff "/srv/app.py"
      (in_app "Dangerous eval() usage detected" ∷ in_app "Weak authentication check" ∷ []) refl

abbrev logs : Files
logs = record {
  is_dir = λ p. true;
  is_file = λ p. str_eq p "/srv/auth.log";
  exists = λ p. true;
  rglob = λ pattern p. "/srv/auth.log" ∷ "/srv/logs" ∷ [];
  name = λ p. p;
  suffix = λ p. "";
  read = λ p. none;
  lines = λ p. some ("login failed for root" ∷ "login failed for root" ∷ "session opened" ∷ []);
  search = λ pattern ignore_case text.
      if contains text "login failed" then some "login failed" else none;
}

discover_log_files-IsBounded_example : IsBounded logs (discover_log_files logs "/srv")
discover_log_files-IsBounded_example = discover_log_files-IsBounded logs "/srv"

brute_force_iff_example :
    let files : List String = "/srv/auth.log" ∷ [] in
    (flat_map brute_force_event (scan_files logs files empty_tally).brute_force ≡ [])
    ↔ ((file ip : String) → failures logs file ip files < brute_force_threshold)
brute_force_iff_example = brute_force_iff logs ("/srv/auth.log" ∷ [])

-- every URL of example.org answers with one page, which links to itself and to another site
abbrev page : Reply
page = record {
  status_code = 200;
  headers = ("content-type", "text/html") ∷ [];
  text = "<a href='/'>";
}

abbrev parsed : String → Option ParsedUrl
parsed url = some (record {
  netloc = if starts_with url "https://example.org" then "example.org" else "other.net";
  query = "";
})

abbrev site : Web
site = record {
  is_port_open = λ log host port. true;
  answer = λ log sent. some page;
  urljoin = λ base href. some (concat "https://" href);
  urlparse = parsed;
  query_keys = λ query. [];
  with_query = λ url query. url;
  find_all = λ pattern ignore_case text. "example.org/" ∷ "other.net/" ∷ [];
  find_whole = λ pattern ignore_case text. [];
  has_match = λ pattern ignore_case text. false;
  refusal = λ url. "not public";
  new_hex = λ log. "0123456789abcdef";
}

crawl-Asks_example : Asks site "example.org" [] [] (crawl site "https://example.org/" [])
unfolding starts_with
crawl-Asks_example =
    crawl-Asks site "https://example.org/" (record { netloc = "example.org"; query = "" }) [] refl

execute-passive_example :
    Sends 9
      (host_of site "https://example.org/")
      "https://example.org/"
      []
      (execute_on site net false "https://example.org/" []).1
execute-passive_example = execute-passive site net "https://example.org/" []

abbrev codec : Codec
codec = record {
  base_url = λ url. some "https://example.org";
  parse_json = λ body. none;
  parse_yaml = λ body. none;
  decode_segment = λ segment. none;
  encode_json = λ j. "";
  find_jwt = λ body. none;
  error_text = λ log. "error";
}

execute-Sends_example :
    ApiSends 3 "https://example.org/api" []
      (test_api site codec logs (λ s. []) false "https://example.org/api" []).1
    × (is_url "https://example.org/api" ≡ false
        → (test_api site codec logs (λ s. []) false "https://example.org/api" []).1 ≡ [])
execute-Sends_example = execute-Sends site codec logs (λ s. []) "https://example.org/api" []

-- the pattern ends at the first closing parenthesis
nested_call :
    patch_text "requests.get(f(x), timeout=5)" ≡ "requests.get(f(x, timeout=10), timeout=5)"
unfolding patch_text patched call_at after method_at split_once cons_first contains starts_with
    rstrip_if is_space size
nested_call = refl

abbrev host : Host
host = record {
  exists = λ p. true;
  is_file = λ p. true;
  content = λ p. some "requests.get(url, timeout=5)";
  resolve = λ p. p;
  scan = λ w target. [];
  run = λ log command. none;
}

patch_file-timed_example : patch_file host "/srv/app.py" [] ≡ (false, [])
unfolding all_timed call_at after method_at split_once cons_first contains starts_with size value_of
patch_file-timed_example =
    patch_file-timed host "/srv/app.py" "requests.get(url, timeout=5)" [] refl refl
