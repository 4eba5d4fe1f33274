-- ===== src/Scanners/Web.antt =====
-- The network as the agents see it. What leaves the process is recorded, oldest first, and an answer
-- may depend on all that went out before.
use Prim.Native.String.{◌++◌ as concat}
use security_review_ai.Prelude.{
  ℕ, String, str_eq, Bool, Option, none, some, List, [], ◌∷◌, if◌then◌else◌,
}

pub data Sent : Type 0 where
  -- a TCP connection to a port
  connect : String → ℕ → Sent
  -- client.get(url, headers=...)
  get : String → List (String × String) → Sent

-- an httpx response; the names of its headers are in lower case
pub record Reply : Type 0 where
  pub status_code : ℕ
  pub headers : List (String × String)
  pub text : String

pub record ParsedUrl : Type 0 where
  pub netloc : String
  pub query : String

-- socket, httpx, urllib.parse, re and uuid: `none` stands for an exception, `find_all` has the
-- first group of each match and `find_whole` the whole match, and `refusal` is the text of
-- UnsafeOutboundUrlError for a URL
pub record Web : Type 0 where
  pub is_port_open : List Sent → String → ℕ → Bool
  pub answer : List Sent → Sent → Option Reply
  pub urljoin : String → String → Option String
  pub urlparse : String → Option ParsedUrl
  -- parse_qs(query, keep_blank_values=True).keys(), and parsed._replace(query=...).geturl()
  pub query_keys : String → List String
  pub with_query : String → String → String
  pub find_all : String → Bool → String → List String
  pub find_whole : String → Bool → String → List String
  pub has_match : String → Bool → String → Bool
  pub refusal : String → String
  pub new_hex : List Sent → String

-- client.get(url)
abbrev pub request : String → Sent
request url = get url []

-- values of one name, which httpx joins by commas
abbrev before_next : String → Option String → String
before_next v none = v
before_next v (some next) = concat v (concat ", " next)

-- response.headers.get(name)
abbrev pub header : String → List (String × String) → Option String
header name [] = none
header name ((n, v) ∷ t) =
    let rest = header name t in if str_eq n name then some (before_next v rest) else rest
