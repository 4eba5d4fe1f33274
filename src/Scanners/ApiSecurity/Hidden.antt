-- ===== src/Scanners/ApiSecurity/Hidden.antt =====
-- The search for undocumented endpoints in api_security_agent.py.
use security_review_ai.Prelude.{
  ℕ, String, str_eq, true, false, ◌||◌, Option, none, some, List, [], ◌∷◌, ◌++◌, any, map, length,
  concat, decimal, before, ends_with, rstrip_if, is_nonempty, ltb, ◌==◌, if◌then◌else◌,
}
use security_review_ai.Domain.Assessment.{FindingSeverity}
use security_review_ai.Scanners.Report.{Draft, draft}
use security_review_ai.Scanners.Web.{Sent, Reply, Web, request}
use security_review_ai.Scanners.ApiSecurity.Json.{
  Json, text, array, object, null, elements, pairs, has, get_key,
}
use security_review_ai.Scanners.ApiSecurity.Jwt.{Codec}

abbrev openapi_spec_paths : List String
openapi_spec_paths =
    "/openapi.json" ∷ "/openapi.yaml" ∷ "/swagger.json" ∷ "/swagger.yaml" ∷ "/v3/api-docs"
    ∷ "/v2/api-docs" ∷ "/api-docs" ∷ "/api/openapi.json" ∷ "/swagger/v1/swagger.json"
    ∷ "/docs/openapi.json" ∷ []

abbrev hidden_endpoint_candidates : List String
hidden_endpoint_candidates =
    "/admin" ∷ "/api/admin" ∷ "/internal" ∷ "/api/internal" ∷ "/debug" ∷ "/api/debug" ∷ "/actuator"
    ∷ "/actuator/env" ∷ "/actuator/health" ∷ "/metrics" ∷ "/api/metrics" ∷ "/api/v2"
    ∷ "/api/v1/users" ∷ "/api/users" ∷ "/graphql" ∷ "/api/graphql" ∷ "/.env" ∷ "/.git/config"
    ∷ "/swagger-ui" ∷ "/swagger-ui.html" ∷ "/config" ∷ "/api/config" ∷ "/backup" ∷ "/api/backup"
    ∷ "/test" ∷ "/api/test" ∷ []

abbrev or_root : String → String
or_root s = if is_nonempty s then s else "/"

-- `_normalize_path`
unfoldable pub normalize_path : String → String
normalize_path path = or_root (rstrip_if (λ c. c == b'/') (before b'?' path))

abbrev pub add_new : String → List String → List String
add_new p l = if any (str_eq p) l then l else p ∷ l

abbrev normalized : List String → List String
normalized [] = []
normalized (p ∷ rest) = add_new (normalize_path p) (normalized rest)

abbrev texts : List Json → List String
texts [] = []
texts (text t ∷ rest) = t ∷ texts rest
texts (j ∷ rest) = texts rest

-- the texts that iterating over `spec.get("paths", {})` yields; `characters` has those of a text
abbrev path_names : (String → List String) → Option (Option Json) → Option (List String)
path_names characters none = none
path_names characters (some none) = some []
path_names characters (some (some (object ms))) = some (map (λ (k, j). k) (pairs ms))
path_names characters (some (some (array items))) = some (texts (elements items))
path_names characters (some (some (text t))) = some (characters t)
path_names characters (some (some j)) = none

abbrev as_set : Option (List String) → Option (List String)
as_set none = none
as_set (some names) = some (normalized names)

-- a step that may raise, with what was sent
abbrev pub Attempt : Type 0 → Type 0
Attempt A = List Sent → Option A × List Sent

-- HTTP status codes of endpoints that are reported
abbrev exposure : ℕ → Option (FindingSeverity × String)
exposure code =
    if code == 404
    then none
    else if ltb code 300
    then some (FindingSeverity.high, "publicly accessible")
    else if ltb code 400
    then some (FindingSeverity.medium, "redirects")
    else if code == 401 || code == 403
    then some (FindingSeverity.medium, "exists but access-controlled")
    else none

abbrev hidden_finding : String → String → ℕ → Option (FindingSeverity × String) → List Draft
hidden_finding candidate url code none = []
hidden_finding candidate url code (some (severity, access)) =
    draft (concat "Hidden/undocumented endpoint discovered: " candidate) severity
      (concat "'" (
        concat candidate (
          concat "' is not present in the published OpenAPI spec's paths but responded with HTTP "
            (concat (decimal code) (concat " (" (concat access ")."))))))
      (concat "curl -i " url)
      "Either document this endpoint in the API spec and secure it appropriately, or remove/disable it if it should not be exposed."
    ∷ []

abbrev candidate_findings : String → String → Option Reply → List Draft
candidate_findings candidate url none = []
candidate_findings candidate url (some r) =
    hidden_finding candidate url r.status_code (exposure r.status_code)

abbrev prepend : List Draft → Option (List Draft) → Option (List Draft)
prepend ds none = none
prepend ds (some rest) = some (ds ++ rest)

abbrev status_of : Reply → ℕ
status_of r = r.status_code

module _ (web : Web) (codec : Codec) where
  -- the GETs of the candidates that are not documented; urljoin may raise
  unfoldable pub probe_candidates : String → List String → List String → Attempt (List Draft)
  probe_candidates base documented [] log = (some [], log)
  probe_candidates base documented (candidate ∷ rest) log =
      elim (any (str_eq (normalize_path candidate)) documented) [
        | true ↦ probe_candidates base documented rest log
        | false ↦ elim (web.urljoin base candidate) [
          | none ↦ (none, log)
          | some url ↦
              let (later, log') = probe_candidates base documented rest (log ++ request url ∷ []) in
              (
                prepend (candidate_findings candidate url (web.answer log (request url))) later,
                log',
              )
        ]
      ]

  -- `_probe_hidden_endpoints`
  abbrev pub probe_hidden_endpoints : String → List String → Attempt (List Draft)
  probe_hidden_endpoints base documented =
      probe_candidates base documented hidden_endpoint_candidates

  -- `_parse_spec_body`
  abbrev pub parse_spec_body : String → String → Option Json
  parse_spec_body body path =
      if ends_with path ".yaml" || ends_with path ".yml"
      then codec.parse_yaml body
      else codec.parse_json body

  -- whether a response has a specification; `none` where `"paths" in spec` raises
  abbrev spec_in : String → Option Json → Option (Option (Json × String))
  spec_in path none = some none
  spec_in path (some null) = some none
  spec_in path (some j) = elim (has "paths" j) [
    | none ↦ none
    | some true ↦ some (some (j, path))
    | some false ↦ some none
  ]

  abbrev spec_of : String → Option Reply → Option (Option (Json × String))
  spec_of path none = some none
  spec_of path (some r) =
      if r.status_code == 200 then spec_in path (parse_spec_body r.text path) else some none

  unfoldable pub fetch_from : String → List String → Attempt (Option (Json × String))
  fetch_from base [] log = (some none, log)
  fetch_from base (path ∷ rest) log = elim (web.urljoin base path) [
    | none ↦ fetch_from base rest log
    | some url ↦ elim (spec_of path (web.answer log (request url))) [
      | none ↦ (none, log ++ request url ∷ [])
      | some none ↦ fetch_from base rest (log ++ request url ∷ [])
      | some (some found) ↦ (some (some found), log ++ request url ∷ [])
    ]
  ]

  -- `_extract_documented_paths`
  unfoldable pub extract_documented_paths : (String → List String) → Json → Option (List String)
  extract_documented_paths characters spec = as_set (path_names characters (get_key "paths" spec))

  abbrev spec_found : String → List String → String → Draft
  spec_found path documented evidence =
      draft "OpenAPI/Swagger specification discovered" FindingSeverity.low
        (concat "Found a published API specification at " (
          concat path
            (concat " declaring " (concat (decimal (length documented)) " documented path(s)."))))
        evidence "Ensure the published spec accurately reflects all live endpoints."

  abbrev with_evidence : String → String → List String → Option String → Attempt (List Draft)
  with_evidence base path documented none log = (none, log)
  with_evidence base path documented (some evidence) log =
      let (found, log') = probe_hidden_endpoints base documented log in
      (prepend (spec_found path documented evidence ∷ []) found, log')

  abbrev with_documented : String → String → Option (List String) → Attempt (List Draft)
  with_documented base path none log = (none, log)
  with_documented base path (some documented) log =
      with_evidence base path documented (web.urljoin base path) log

  abbrev with_spec :
      (String → List String)
      → String
      → Option (Option (Json × String)) × List Sent
      → Option (List Draft) × List Sent
  with_spec characters base (none, log) = (none, log)
  with_spec characters base (some none, log) = probe_hidden_endpoints base [] log
  with_spec characters base (some (some (spec, path)), log) =
      with_documented base path (extract_documented_paths characters spec) log

  abbrev at_base : (String → List String) → Option String → Attempt (List Draft)
  at_base characters none log = (none, log)
  at_base characters (some base) log =
      with_spec characters base (fetch_from base openapi_spec_paths log)

  -- `_discover_hidden_endpoints_from_live_target`
  unfoldable pub discover_hidden_endpoints : (String → List String) → String → Attempt (List Draft)
  discover_hidden_endpoints characters url = at_base characters (codec.base_url url)
