-- ===== src/Scanners/ApiSecurity/Jwt.antt =====
-- The tests of JSON web tokens in api_security_agent.py.
use security_review_ai.Prelude.{
  String, Bool, true, false, ◌&&◌, not, Option, none, some, List, [], ◌∷◌, ◌++◌, concat, decimal,
  is_nonempty, ltb, leb, split_once, before, if◌then◌else◌,
}
use security_review_ai.Domain.Assessment.{FindingSeverity}
use security_review_ai.Scanners.Report.{Draft, draft, report_if}
use security_review_ai.Scanners.Web.{Sent, get, Reply, Web, request}
use security_review_ai.Scanners.ApiSecurity.Json.{
  Json, text, number, object, no_member, member, has, get_key, is_none_text,
}

-- base64, json, yaml, httpx.URL and re: `none` stands for an exception
pub record Codec : Type 0 where
  -- the base of a URL: its scheme and network location
  pub base_url : String → Option String
  pub parse_json : String → Option Json
  pub parse_yaml : String → Option Json
  -- json.loads(_b64url_decode(segment)) and _b64url_encode_json(data)
  pub decode_segment : String → Option Json
  pub encode_json : Json → String
  -- the text of the first match of _JWT_PATTERN
  pub find_jwt : String → Option String
  -- str(exc) of an exception after these messages
  pub error_text : List Sent → String

-- _MALICIOUS_JWT_CLAIMS
abbrev malicious_jwt_claims : List (String × Json)
malicious_jwt_claims =
    (
      "alg-none admin claim",
      object (
          member "sub" (text "admin")
            (member "role" (text "admin") (member "exp" (number 9999999999) no_member))),
    )
    ∷ (
      "alg-none expired token",
      object (member "sub" (text "test-user") (member "exp" (number 1) no_member)),
    )
    ∷ []

module _ (web : Web) (codec : Codec) where
  abbrev pub craft_alg_none_jwt : Json → String
  craft_alg_none_jwt payload =
      concat
        (codec.encode_json
          (object (member "alg" (text "none") (member "typ" (text "JWT") no_member))))
        (concat "." (concat (codec.encode_json payload) "."))

  abbrev bearer : String → String → Sent
  bearer url token = get url (("Authorization", concat "Bearer " token) ∷ [])

  abbrev accepted : String → String → String → Reply → Option Reply → List Draft
  accepted url label token baseline none = []
  accepted url label token baseline (some r) =
      report_if (ltb r.status_code 300 && leb 400 baseline.status_code) (
        draft (concat "Potential JWT validation weakness: " label) FindingSeverity.critical
          (concat "A crafted JWT using the insecure 'alg: none' algorithm was accepted (HTTP " (
            concat (decimal r.status_code) (
              concat ") even though an unauthenticated request received HTTP " (
                concat (decimal baseline.status_code)
                  ", suggesting the server does not verify JWT signatures/claims."))))
          (concat "curl -H 'Authorization: Bearer " (concat token (concat "' " url)))
          "Explicitly reject tokens using the 'none' algorithm, verify signatures against a fixed allow-list of algorithms, and enforce exp/nbf validation.")

  abbrev try_claims : String → Reply → List (String × Json) → List Sent → List Draft × List Sent
  try_claims url baseline [] log = ([], log)
  try_claims url baseline ((label, claims) ∷ rest) log =
      let token = craft_alg_none_jwt claims in
      let (later, log') = try_claims url baseline rest (log ++ bearer url token ∷ []) in
      (accepted url label token baseline (web.answer log (bearer url token)) ++ later, log')

  abbrev with_baseline : String → Option Reply → List Sent → List Draft × List Sent
  with_baseline url none log = ([], log)
  with_baseline url (some baseline) log = try_claims url baseline malicious_jwt_claims log

  -- `_check_jwt_handling`
  unfoldable pub check_jwt_handling : String → List Sent → List Draft × List Sent
  check_jwt_handling url log =
      with_baseline url (web.answer log (request url)) (log ++ request url ∷ [])

  abbrev missing_exp : String → Option Bool → Option (List Draft)
  missing_exp url none = none
  missing_exp url (some found) = some (
      report_if (not found) (
        draft "JWT missing expiration (exp) claim" FindingSeverity.high
          "A JWT observed in the response does not include an 'exp' claim, so it never expires once issued."
          url "Always set a short-lived 'exp' claim on issued tokens."))

  -- the findings of a header's algorithm and a payload; `none` where `.get` or `in` raises
  abbrev claims_findings : String → Option (Option Json) → Json → Option (List Draft)
  claims_findings url none payload = none
  claims_findings url (some alg) payload = elim (is_none_text alg) [
    | true ↦ some (
        draft "JWT issued with insecure 'alg: none'" FindingSeverity.critical
          "A JWT observed in the response is signed with the 'none' algorithm, meaning anyone can forge a valid-looking token."
          url
          "Issue tokens signed with a strong algorithm (e.g. RS256/HS256) and reject the 'none' algorithm server-side."
        ∷ [])
    | false ↦ missing_exp url (has "exp" payload)
  ]

  abbrev decoded_claims : String → Option Json → Option Json → Option (List Draft)
  decoded_claims url none payload = some []
  decoded_claims url (some header) none = some []
  decoded_claims url (some header) (some payload) =
      claims_findings url (get_key "alg" header) payload

  abbrev payload_of : String → Option Json
  payload_of segment =
      if is_nonempty segment then codec.decode_segment segment else some (object no_member)

  abbrev token_parts : String → Option (String × String) → Option (List Draft)
  token_parts url none = some []
  token_parts url (some (first, rest)) =
      decoded_claims url (codec.decode_segment first) (payload_of (before b'.' rest))

  abbrev token_findings : String → Option String → Option (List Draft)
  token_findings url none = some []
  token_findings url (some token) = token_parts url (split_once b'.' token)

  -- `_check_exposed_jwt_claims`
  unfoldable pub check_exposed_jwt_claims : Reply → String → Option (List Draft)
  check_exposed_jwt_claims r url = token_findings url (codec.find_jwt r.text)
