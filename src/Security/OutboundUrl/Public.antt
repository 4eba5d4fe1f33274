-- ===== src/Security/OutboundUrl/Public.antt =====
-- What a URL that passes is like.
use security_review_ai.Prelude.{
  ℕ, ◌≡◌, ◌≢◌, ◌↔◌, refl, inl, inr, String, true, false, some, List, [], ◌∷◌, arith, is_truthy,
  Option-cases, ◌⊎◌,
}
use security_review_ai.Exec.{ok, Result-cases}
use security_review_ai.Security.OutboundUrl.{
  Network, Lookup, addresses, gaierror, unicode_error, SplitUrl, is_http, all_global, port_of,
  validate_public_host, validate_public_http_url,
}

Lookup-cases :
    (r : Lookup)
    → ((found : List String) × (r ≡ addresses found)) ⊎ ((r ≡ gaierror) ⊎ (r ≡ unicode_error))
Lookup-cases (addresses found) = inl (found, refl)
Lookup-cases gaierror = inr (inl refl)
Lookup-cases unicode_error = inr (inr refl)

module _ (net : Network) where
  -- what the check means by a public URL: it parses to an http or https URL with a host, without
  -- credentials, of which the host resolves to at least one address and to global ones only
  pub IsPublic : String → Type 0
  IsPublic url =
      (p : SplitUrl) × (host : String) × (found : List String) × (net.urlsplit url ≡ some p)
      × (is_http p.scheme ≡ true)
      × (p.hostname ≡ some host)
      × (is_truthy (some host) ≡ true)
      × (is_truthy p.username ≡ false)
      × (is_truthy p.password ≡ false)
      × (net.getaddrinfo host (port_of p.scheme p.port) ≡ addresses found)
      × (found ≢ [])
      × (all_global net.is_global found ≡ true)

  host_ok :
      (host : String) (port : ℕ)
      → validate_public_host net host port ≡ ok tt
      → (found : List String) × (net.getaddrinfo host port ≡ addresses found)
        × (found ≢ [])
        × (all_global net.is_global found ≡ true)
  unfolding validate_public_host
  host_ok host port h = elim (Lookup-cases (net.getaddrinfo host port)) [
    | inl ([], e) ↦ absurd (ground arith)
    | inl (a ∷ t, e) ↦ (a ∷ t, e, λ x. absurd (cc), ground arith)
    | inr (inl e) ↦ absurd (ground arith)
    | inr (inr e) ↦ absurd (ground arith)
  ]

  validate_public_http_url-IsPublic :
      (url : String) → (validate_public_http_url net url ≡ ok url) → IsPublic url
  unfolding validate_public_http_url IsPublic
  validate_public_http_url-IsPublic url h = elim (Option-cases (net.urlsplit url)) [
    | inl e ↦ absurd (ground arith)
    | inr (p, e) ↦ elim (Option-cases p.hostname) [
      | inl f ↦ absurd (ground arith)
      | inr (host, f) ↦
          elim (Result-cases (validate_public_host net host (port_of p.scheme p.port))) [
            | inl (u, v) ↦
                let (found, x, y, z) = host_ok host (port_of p.scheme p.port) v in
                (
                  p,
                  host,
                  found,
                  e,
                  ground arith,
                  f,
                  ground arith,
                  ground arith,
                  ground arith,
                  x,
                  y,
                  z,
                )
            | inr (x, v) ↦ absurd (ground arith)
          ]
    ]
  ]

  IsPublic-validate : (url : String) → IsPublic url → validate_public_http_url net url ≡ ok url
  unfolding validate_public_http_url IsPublic validate_public_host
  IsPublic-validate url (p, host, [], e, s, f, t, n, w, x, y, z) = absurd (y refl)
  IsPublic-validate url (p, host, a ∷ as_, e, s, f, t, n, w, x, y, z) = ground arith

  -- A URL passes the check exactly if it is public, and then it comes back as it is: it parses to
  -- an http or https URL with a host, without credentials, of which the host resolves to at least
  -- one address and to global ones only.
  pub validate_public_http_url_iff :
      (url : String) → (validate_public_http_url net url ≡ ok url) ↔ IsPublic url
  validate_public_http_url_iff url = (validate_public_http_url-IsPublic url, IsPublic-validate url)
