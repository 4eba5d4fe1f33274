-- ===== src/Scanners/BlackBox/Scope.antt =====
-- What the agent sends to a target.
use mathlib.Core.Path.{subst}
use mathlib.Core.List.{append-nil, append_assoc}
use security_review_ai.Prelude.{
  ℕ, ◌+◌, ◌≤◌, ◌≡◌, refl, sym, ap, ◌∙◌, String, false, List, [], ◌∷◌, ◌++◌, All, All-append, any,
  length, length-append, arith, Bool-cases, inl, inr,
}
use security_review_ai.Exec.{Error, Result, ok, err}
use security_review_ai.Security.OutboundUrl.{Network, validate_public_http_url}
use security_review_ai.Scanners.Web.{Sent, connect, get, Web, request}
use security_review_ai.Scanners.BlackBox.Probes.{check_web_server}
use security_review_ai.Scanners.BlackBox.Run.{
  common_ports, checked_address, is_web_port, is_url, host_of, scan_ports, deep_testing,
  web_testing, after_ports, if_public, execute_on,
}

-- a probe of a port of the host, or a GET of the target itself
abbrev pub IsPassive : String → String → Sent → Type 0
IsPassive host target (connect h port) = h ≡ host
IsPassive host target (get url headers) = (url ≡ target) × (headers ≡ [])

-- what is sent is passive and at most a number of messages
abbrev pub Sends : ℕ → String → String → List Sent → List Sent → Type 0
Sends n host target before after =
    (sent : List Sent) × (after ≡ before ++ sent)
    × All (IsPassive host target) sent
    × (length sent ≤ n)

Sends-trans :
    {m n k : ℕ} {host target : String} (a : List Sent) {b c : List Sent}
    → m + n ≤ k
    → Sends m host target a b
    → Sends n host target b c
    → Sends k host target a c
Sends-trans a bound (s, e, h, k) (t, f, g, l) = (
  s ++ t,
  f ∙ ap (λ x. x ++ t) e ∙ append_assoc a s t,
  All-append _ s t h g,
  ground (arith, length-append s t),
)

Sends-nothing : {n : ℕ} {host target : String} (a : List Sent) → Sends n host target a a
Sends-nothing a = ([], sym (append-nil a), tt, omega arith)

module _ (web : Web) where
  scan_ports-Sends :
      (host target : String) (ports : List (ℕ × String)) (log : List Sent)
      → Sends (length ports) host target log (scan_ports web host ports log).1
  unfolding scan_ports
  scan_ports-Sends host target [] log = Sends-nothing log
  scan_ports-Sends host target ((port, service) ∷ rest) log =
      Sends-trans {m = 1} log (omega arith) (connect host port ∷ [], refl, (refl, tt), omega arith)
        (scan_ports-Sends host target rest (log ++ connect host port ∷ []))

  web_testing-Sends :
      (host target : String) (opened : List (ℕ × String)) (log : List Sent)
      → Sends 1 host target log (web_testing web opened target log).1
  unfolding check_web_server
  web_testing-Sends host target opened log = elim (Bool-cases (any is_web_port opened)) [
    | inl e ↦ rw (e, web_testing) (request target ∷ [], refl, ((refl, refl), tt), omega arith)
    | inr e ↦ rw (e, web_testing) (Sends-nothing log)
  ]

  deep_testing-quiet :
      (target : String) (log : List Sent)
      → (deep_testing web (is_url target) false target log).1 ≡ log
  deep_testing-quiet target log = elim (Bool-cases (is_url target)) [
    | inl e ↦ rw e refl
    | inr e ↦ rw e refl
  ]

  after_ports-Sends :
      (target : String) (opened : List (ℕ × String)) (log : List Sent)
      → Sends 1 (host_of web target) target log (after_ports web false target (opened, log)).1
  after_ports-Sends target opened log =
      rw (deep_testing-quiet target (web_testing web opened target log).1)
        (web_testing-Sends (host_of web target) target opened log)

  module _ (net : Network) where
    if_public-of_error :
        (target : String) (e : Error) (log : List Sent)
        → (if_public web false target (err e) log).1 ≡ log
    if_public-of_error target e log = ground arith

    if_public-Sends :
        (target : String) (r : Result String) (log : List Sent)
        → Sends 9 (host_of web target) target log (if_public web false target r log).1
    if_public-Sends target (err e) log =
        subst (Sends 9 (host_of web target) target log) (sym (if_public-of_error target e log))
          (Sends-nothing log)
    if_public-Sends target (ok url) log =
        let scan = scan_ports web (host_of web target) common_ports log in
        Sends-trans log (omega arith)
          (scan_ports-Sends (host_of web target) target common_ports log)
          (after_ports-Sends target scan.0 scan.1)

    -- Without the confirmation of authorization, whatever the target and the answers, the
    -- black-box agent sends at most nine messages, and each is a connection to a port of the host
    -- of the target or a GET of the target itself without extra headers.
    pub execute-passive :
        (target : String) (log : List Sent)
        → Sends 9 (host_of web target) target log (execute_on web net false target log).1
    unfolding execute_on
    execute-passive target log =
        if_public-Sends target (validate_public_http_url net (checked_address target)) log
