-- ===== src/Security/OutboundUrl.antt =====
-- outbound_url_validation.py. URL splitting, name resolution and the address registry are
-- parameters: `urllib.parse.urlsplit`, `socket.getaddrinfo` and `ipaddress`.
pub mod Public
use security_review_ai.Prelude.{
  ℕ, String, str_eq, Bool, true, ◌||◌, ◌&&◌, not, Option, none, some, List, [], ◌∷◌, is_truthy,
  if◌then◌else◌,
}
use security_review_ai.Exec.{Result, ok, err, unsafe_outbound_url, other_exception}

-- the attributes of a `SplitResult`
pub record SplitUrl : Type 0 where
  pub scheme : String
  pub netloc : String
  pub hostname : Option String
  pub port : Option ℕ
  pub username : Option String
  pub password : Option String

-- how `socket.getaddrinfo` ends: with addresses, with `socket.gaierror`, or with the UnicodeError
-- of a host name that has no IDNA form
pub data Lookup : Type 0 where
  addresses : List String → Lookup
  gaierror unicode_error : Lookup

pub record Network : Type 0 where
  -- `none` where `urlsplit`, `.hostname` or `.port` raises ValueError
  pub urlsplit : String → Option SplitUrl
  pub getaddrinfo : String → ℕ → Lookup
  -- `ipaddress.ip_address(text).is_global`
  pub is_global : String → Bool

abbrev pub is_http : String → Bool
is_http scheme = str_eq scheme "http" || str_eq scheme "https"

-- `if not address.is_global: raise` for each address
abbrev pub all_global : (String → Bool) → List String → Bool
all_global g [] = true
all_global g (a ∷ t) = g a && all_global g t

-- an exception that is not a gaierror is not caught here
abbrev check_addresses : (String → Bool) → Lookup → Result (Unit {0})
check_addresses g gaierror = err unsafe_outbound_url
check_addresses g unicode_error = err other_exception
check_addresses g (addresses []) = err unsafe_outbound_url
check_addresses g (addresses (a ∷ t)) =
    if all_global g (a ∷ t) then ok tt else err unsafe_outbound_url

-- parsed.port or (443 if parsed.scheme == "https" else 80); a port of 0 is false too
abbrev default_port : String → ℕ
default_port scheme = if str_eq scheme "https" then 443 else 80

abbrev pub port_of : String → Option ℕ → ℕ
port_of scheme none = default_port scheme
port_of scheme (some ℕ.zero) = default_port scheme
port_of scheme (some (ℕ.suc p)) = ℕ.suc p

module _ (net : Network) where
  unfoldable pub validate_public_host : String → ℕ → Result (Unit {0})
  validate_public_host hostname port = check_addresses net.is_global (net.getaddrinfo hostname port)

  abbrev with_host : String → SplitUrl → Option String → Result String
  with_host url p none = err unsafe_outbound_url
  with_host url p (some host) =
      if not (is_truthy (some host)) || is_truthy p.username || is_truthy p.password
      then err unsafe_outbound_url
      else elim (validate_public_host host (port_of p.scheme p.port)) [
        | ok u ↦ ok url
        | err e ↦ err e
      ]

  abbrev check_parsed : String → Option SplitUrl → Result String
  check_parsed url none = err unsafe_outbound_url
  check_parsed url (some p) =
      if is_http p.scheme then with_host url p p.hostname else err unsafe_outbound_url

  unfoldable pub validate_public_http_url : String → Result String
  unfolding validate_public_host
  validate_public_http_url url = check_parsed url (net.urlsplit url)
