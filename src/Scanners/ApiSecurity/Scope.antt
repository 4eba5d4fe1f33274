-- ===== src/Scanners/ApiSecurity/Scope.antt =====
-- What the agent sends without the confirmation of authorization.
use mathlib.Core.List.{append_assoc, append-nil}
use security_review_ai.Prelude.{
  ℕ, ◌≤◌, ◌≡◌, ◌⊎◌, refl, sym, ◌∙◌, String, Bool, true, false, Option, none, some, List, [], ◌∷◌,
  ◌++◌, All, length, arith, Bool-cases, inl, inr,
}
use security_review_ai.Scanners.Report.{Draft, Files}
use security_review_ai.Scanners.Web.{Sent, Web, request}
use security_review_ai.Scanners.ApiSecurity.Json.{Json}
use security_review_ai.Scanners.ApiSecurity.Jwt.{Codec}
use security_review_ai.Scanners.ApiSecurity.Specs.{
  Step, with_server, after_static, loaded, load_spec, check_spec, server_url, finish,
  analyze_openapi_spec,
}
use security_review_ai.Scanners.ApiSecurity.Live.{
  cors_request, after_exposed, test_api_endpoint, is_url, run_on, execute_on,
}

-- a GET of the URL itself, plain or with a foreign origin
abbrev pub IsPlainGet : String → Sent → Type 0
IsPlainGet url s = (s ≡ request url) ⊎ (s ≡ cors_request url)

abbrev pub Sends : ℕ → String → List Sent → List Sent → Type 0
Sends n url before after =
    (sent : List Sent) × (after ≡ before ++ sent) × All (IsPlainGet url) sent × (length sent ≤ n)

module _ (web : Web) (codec : Codec) (files : Files) (characters : String → List String) where
  after_exposed-Sends :
      (url : String) (ds : List Draft) (claims : Option (List Draft)) (log : List Sent)
      → Sends 3 url log
          (after_exposed web codec files characters false url ds claims
            ((log ++ request url ∷ []) ++ request url ∷ [])).1
  after_exposed-Sends url ds none log = (
    request url ∷ request url ∷ [],
    append_assoc log (request url ∷ []) (request url ∷ []),
    (inl refl, (inl refl, tt)),
    omega arith,
  )
  after_exposed-Sends url ds (some claims) log = (
    request url ∷ request url ∷ cors_request url ∷ [],
    append_assoc (log ++ request url ∷ []) (request url ∷ []) (cors_request url ∷ [])
        ∙ append_assoc log (request url ∷ []) (request url ∷ cors_request url ∷ []),
    (inl refl, (inl refl, (inr refl, tt))),
    omega arith,
  )

  with_server-quiet :
      (path : String) (ds : List Draft) (spec : Json) (server : Option (Option String))
      (log : List Sent)
      → (finish web codec files characters path ds
          (with_server web codec files characters false spec server log)
          log).1
        ≡ log
  with_server-quiet path ds spec none log = refl
  with_server-quiet path ds spec (some none) log = refl
  with_server-quiet path ds spec (some (some url)) log = refl

  after_static-quiet :
      (path : String) (spec : Json) (step : Step) (log : List Sent)
      → (after_static web codec files characters false path spec step log).1 ≡ log
  after_static-quiet path spec (ds, true) log = refl
  after_static-quiet path spec (ds, false) log =
      with_server-quiet path ds spec (server_url spec) log

  loaded-quiet :
      (path : String) (spec : Option Json) (log : List Sent)
      → (loaded web codec files characters false path spec log).1 ≡ log
  loaded-quiet path none log = refl
  loaded-quiet path (some spec) log = after_static-quiet path spec (check_spec path spec) log

  analyze_openapi_spec-quiet :
      (path : String) (log : List Sent)
      → (analyze_openapi_spec web codec files characters false path log).1 ≡ log
  unfolding analyze_openapi_spec
  analyze_openapi_spec-quiet path log = elim (Bool-cases (files.exists path)) [
    | inl e ↦
        rw (e, analyze_openapi_spec)
          (loaded-quiet path (load_spec web codec files characters path (files.read path)) log)
    | inr e ↦ rw (e, analyze_openapi_spec) refl
  ]

  run_on-Sends :
      (kind : Bool) (target : String) (log : List Sent)
      → Sends 3 target log (run_on web codec files characters kind false target log).1
        × (kind ≡ false → (run_on web codec files characters kind false target log).1 ≡ log)
  unfolding test_api_endpoint
  run_on-Sends true target log = (after_exposed-Sends target _ _ log, λ e. absurd (cc))
  run_on-Sends false target log =
      let quiet = analyze_openapi_spec-quiet target log in
      (([], quiet ∙ sym (append-nil log), tt, omega arith), λ e. quiet)

  -- Without the confirmation of authorization, whatever the answers, the API-security agent sends
  -- at most three messages, each a GET of the target itself, plain or with a foreign Origin
  -- header; if the target is not an http or https URL it sends nothing.
  pub execute-Sends :
      (target : String) (log : List Sent)
      → Sends 3 target log (execute_on web codec files characters false target log).1
        × (is_url target ≡ false → (execute_on web codec files characters false target log).1 ≡ log)
  unfolding execute_on
  execute-Sends target log = run_on-Sends (is_url target) target log
