-- ===== src/Scanners/ApiSecurity/Specs.antt =====
-- `_analyze_openapi_spec` of api_security_agent.py. A step has the findings that it appends and
-- whether an exception ended it.
use security_review_ai.Prelude.{
  zero, suc, String, str_eq, Bool, true, false, ◌||◌, not, Option, none, some, List, [], ◌∷◌, ◌++◌,
  concat, lower, starts_with, if◌then◌else◌,
}
use security_review_ai.Domain.Assessment.{FindingSeverity}
use security_review_ai.Scanners.Report.{Draft, draft, Files}
use security_review_ai.Scanners.Web.{Sent, Web}
use security_review_ai.Scanners.ApiSecurity.Json.{
  Json, null, boolean, number, text, array, object, no_item, item, no_member, member, has, get_key,
  items_of,
}
use security_review_ai.Scanners.ApiSecurity.Jwt.{Codec}
use security_review_ai.Scanners.ApiSecurity.Hidden.{
  extract_documented_paths, probe_hidden_endpoints,
}

abbrev pub Step : Type 0
Step = List Draft × Bool

abbrev pub and_then : Step → Step → Step
and_then (ds, true) later = (ds, true)
and_then (ds, false) (es, raised) = (ds ++ es, raised)

-- method.upper() for the methods that are looked at
abbrev upper_method : String → Option String
upper_method m =
    if str_eq m "get"
    then some "GET"
    else if str_eq m "post"
    then some "POST"
    else if str_eq m "put"
    then some "PUT"
    else if str_eq m "delete"
    then some "DELETE"
    else if str_eq m "patch"
    then some "PATCH"
    else none

abbrev unprotected : String → String → Draft
unprotected method path =
    draft (concat "Unprotected endpoint: " (concat method (concat " " path))) FindingSeverity.high
      "Endpoint lacks security requirements." (concat method (concat " " path))
      "Add security requirements to the endpoint."

-- `"security" not in operation and "security" not in spec`
abbrev lacks_security : Option Bool → Option Bool → Option Bool
lacks_security none s = none
lacks_security (some true) s = some false
lacks_security (some false) none = none
lacks_security (some false) (some s) = some (not s)

-- what the loop over the methods does at one of them: it goes on unless it reports or raises
abbrev at_method : String → String → Option Bool → Step → Step
at_method path method none rest = ([], true)
at_method path method (some true) rest = (unprotected method path ∷ [], false)
at_method path method (some false) rest = rest

abbrev check_method : String → Option String → Option Bool → Option Bool → Step → Step
check_method path none operation spec rest = rest
check_method path (some method) operation spec rest =
    at_method path method (lacks_security operation spec) rest

abbrev check_methods : Json → String → List (String × Json) → Step
check_methods spec path [] = ([], false)
check_methods spec path ((m, operation) ∷ rest) =
    check_method path (upper_method m) (has "security" operation) (has "security" spec)
      (check_methods spec path rest)

abbrev check_item : Json → String → Option (List (String × Json)) → Step
check_item spec path none = ([], true)
check_item spec path (some methods) = check_methods spec path methods

unfoldable pub check_paths : Json → List (String × Json) → Step
check_paths spec [] = ([], false)
check_paths spec ((path, methods) ∷ rest) =
    and_then (check_item spec path (items_of methods)) (check_paths spec rest)

abbrev all_paths : Json → Option (List (String × Json)) → Step
all_paths spec none = ([], true)
all_paths spec (some paths) = check_paths spec paths

-- spec["paths"].items()
abbrev paths_value : Json → Option (Option Json) → Step
paths_value spec none = ([], true)
paths_value spec (some none) = ([], true)
paths_value spec (some (some paths)) = all_paths spec (items_of paths)

abbrev if_paths : Json → Option Bool → Step
if_paths spec none = ([], true)
if_paths spec (some false) = ([], false)
if_paths spec (some true) = paths_value spec (get_key "paths" spec)

abbrev no_definitions : String → Draft
no_definitions path =
    draft "Missing security definitions in OpenAPI spec" FindingSeverity.high
      "No security schemes defined in the API specification." path
      "Add securityDefinitions or components/securitySchemes to the spec."

abbrev check_definitions : String → Option Bool → Option Bool → Step
check_definitions path none components = ([], true)
check_definitions path (some true) components = ([], false)
check_definitions path (some false) none = ([], true)
check_definitions path (some false) (some true) = ([], false)
check_definitions path (some false) (some false) = (no_definitions path ∷ [], false)

-- the static part of the analysis
unfoldable pub check_spec : String → Json → Step
check_spec path spec =
    and_then (check_definitions path (has "securityDefinitions" spec) (has "components" spec))
      (if_paths spec (has "paths" spec))

-- `url.startswith(...)` of the first server: `none` raises, `some none` is no live server
abbrev live_url : Option Json → Option (Option String)
live_url none = some none
live_url (some null) = some none
live_url (some (text t)) =
    some (if starts_with t "http://" || starts_with t "https://" then some t else none)
live_url (some (boolean false)) = some none
live_url (some (array no_item)) = some none
live_url (some (object no_member)) = some none
live_url (some (number n)) = elim n [ zero ↦ some none | suc m ↦ none ]
live_url (some j) = none

abbrev first_server : Option Json → Option (Option String)
first_server none = some none
first_server (some (array (item (object ms) rest))) = elim (get_key "url" (object ms)) [
  | none ↦ none
  | some value ↦ live_url value
]
first_server (some (object (member k j ms))) = none
first_server (some (number (suc n))) = none
first_server (some (boolean true)) = none
first_server (some j) = some none

abbrev pub server_url : Json → Option (Option String)
server_url spec = elim (get_key "servers" spec) [
  | none ↦ none
  | some servers ↦ first_server servers
]

abbrev discovery_skipped : String → Draft
discovery_skipped url =
    draft "Hidden-endpoint discovery skipped (authorization required)" FindingSeverity.low
      (concat "The spec declares a live server (" (
        concat url
          ") but undocumented-endpoint probing was skipped because target_authorization_confirmed was not set."))
      url
      "Re-run with target_authorization_confirmed=true once you have explicit authorization to actively probe this target."

abbrev or_nothing : Option (List Draft) → List Draft
or_nothing none = []
or_nothing (some ds) = ds

module _ (web : Web) (codec : Codec) (files : Files) (characters : String → List String) where
  abbrev failure : String → List Sent → Draft
  failure path log =
      draft "OpenAPI analysis error" FindingSeverity.low
        (concat "Could not analyze OpenAPI spec: " (codec.error_text log)) path
        "Verify the OpenAPI specification file is valid."

  -- the probes of a live server, whose exceptions are swallowed
  abbrev probe_server : String → Option (List String) → List Sent → Option (List Draft × List Sent)
  probe_server url none log = none
  probe_server url (some documented) log =
      let (found, log') = probe_hidden_endpoints web codec url documented log in
      some (or_nothing found, log')

  abbrev pub with_server :
      Bool → Json → Option (Option String) → List Sent → Option (List Draft × List Sent)
  with_server authorized spec none log = none
  with_server authorized spec (some none) log = some ([], log)
  with_server true spec (some (some url)) log =
      probe_server url (extract_documented_paths web codec characters spec) log
  with_server false spec (some (some url)) log = some (discovery_skipped url ∷ [], log)

  abbrev pub finish :
      String → List Draft → Option (List Draft × List Sent) → List Sent → List Draft × List Sent
  finish path ds none log = (ds ++ failure path log ∷ [], log)
  finish path ds (some (es, log')) log = (ds ++ es, log')

  abbrev pub after_static : Bool → String → Json → Step → List Sent → List Draft × List Sent
  after_static authorized path spec (ds, true) log = (ds ++ failure path log ∷ [], log)
  after_static authorized path spec (ds, false) log =
      finish path ds (with_server authorized spec (server_url spec) log) log

  abbrev pub loaded : Bool → String → Option Json → List Sent → List Draft × List Sent
  loaded authorized path none log = (failure path log ∷ [], log)
  loaded authorized path (some spec) log =
      after_static authorized path spec (check_spec path spec) log

  abbrev pub load_spec : String → Option String → Option Json
  load_spec path none = none
  load_spec path (some content) =
      if str_eq (lower (files.suffix path)) ".json"
      then codec.parse_json content
      else codec.parse_yaml content

  unfoldable pub analyze_openapi_spec : Bool → String → List Sent → List Draft × List Sent
  analyze_openapi_spec authorized path log = elim (files.exists path) [
    | true ↦ loaded authorized path (load_spec path (files.read path)) log
    | false ↦ ([], log)
  ]
