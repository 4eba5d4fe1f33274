-- ===== src/Scanners/BlackBox/Crawl.antt =====
-- `_crawl` of black_box_agent.py. The recursion is on the number of pages that may still be added,
-- and below that on the queue.
pub mod Requests
use security_review_ai.Prelude.{
  ℕ, zero, suc, ◌+◌, ◌≤◌, ◌≡◌, refl, sym, ap, ◌∙◌, String, str_eq, eq_iff, Bool, true, false, ◌&&◌,
  ◌||◌, not, Option, none, some, List, [], ◌∷◌, ◌++◌, All, All-append, any, any-append, map, length,
  length-append, count_if, contains, arith, if◌then◌else◌, Bool-cases, Option-cases, inl, inr,
}
use security_review_ai.Prelude.Unique.{Unique}
use security_review_ai.Scanners.Web.{Sent, get, Reply, ParsedUrl, Web, request, header}

abbrev pub Pages : Type 0
Pages = List (String × Reply)

-- _MAX_CRAWL_PAGES
abbrev pub max_crawl_pages : ℕ
max_crawl_pages = 15

abbrev pub link_pattern : String
link_pattern = "href=[\"\\']([^\"\\'#\\s]+)"

abbrev pub is_in : String → List String → Bool
is_in url urls = any (λ u. str_eq u url) urls

abbrev pub is_html_type : Option String → Bool
is_html_type none = false
is_html_type (some content_type) = contains content_type "html"

module _ (web : Web) (origin : String) where
  abbrev pub is_on_origin : Option ParsedUrl → Bool
  is_on_origin none = false
  is_on_origin (some p) = str_eq p.netloc origin

  abbrev pub add_link : String → Bool → Option (List String) → Option (List String)
  add_link candidate keep none = none
  add_link candidate keep (some rest) = some (if keep then candidate ∷ rest else rest)

  abbrev pub checked_link :
      List String → String → Option ParsedUrl → Option (List String) → Option (List String)
  checked_link visited candidate none rest = none
  checked_link visited candidate (some p) rest =
      add_link candidate (str_eq p.netloc origin && not (is_in candidate visited)) rest

  abbrev pub joined_link : List String → Option String → Option (List String) → Option (List String)
  joined_link visited none rest = none
  joined_link visited (some candidate) rest =
      checked_link visited candidate (web.urlparse candidate) rest

  -- the links that are queued, or `none` if urllib.parse refuses one of them
  abbrev pub links_of : List String → String → List String → Option (List String)
  links_of visited url [] = some []
  links_of visited url (href ∷ rest) =
      joined_link visited (web.urljoin url href) (links_of visited url rest)

  -- what a page adds to the queue
  abbrev pub new_links : List String → String → Reply → Option (List String)
  new_links visited url reply = elim (is_html_type (header "content-type" reply.headers)) [
    | true ↦ links_of visited url (web.find_all link_pattern true reply.text)
    | false ↦ some []
  ]

  -- the pages that may still be added, visited, queue and pages; the answer is `none` if it raises
  unfoldable pub crawl_from :
      ℕ → List String → List String → Pages → List Sent → Option Pages × List Sent
  crawl_from zero visited queue pages log = (some pages, log)
  crawl_from (suc left) visited [] pages log = (some pages, log)
  crawl_from (suc left) visited (url ∷ queue) pages log = elim (is_in url visited) [
    | true ↦ crawl_from (suc left) visited queue pages log
    | false ↦ elim (web.answer log (request url)) [
      | none ↦ crawl_from (suc left) (visited ++ url ∷ []) queue pages (log ++ request url ∷ [])
      | some reply ↦ elim (new_links (visited ++ url ∷ []) url reply) [
        | none ↦ (none, log ++ request url ∷ [])
        | some links ↦
            crawl_from left (visited ++ url ∷ []) (queue ++ links) (pages ++ (url, reply) ∷ [])
              (log ++ request url ∷ [])
      ]
    ]
  ]

module _ (web : Web) where
  abbrev pub crawl_origin : String → Option ParsedUrl → List Sent → Option Pages × List Sent
  crawl_origin start_url none log = (none, log)
  crawl_origin start_url (some p) log =
      crawl_from web p.netloc max_crawl_pages [] (start_url ∷ []) [] log

  unfoldable pub crawl : String → List Sent → Option Pages × List Sent
  crawl start_url log = crawl_origin start_url (web.urlparse start_url) log
