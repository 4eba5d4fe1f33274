-- ===== src/Scanners/BlackBox/Crawl/Requests.antt =====
-- What a crawl asks for.
use mathlib.Core.Path.{subst}
use mathlib.Core.List.{append_assoc, append-nil}
use security_review_ai.Prelude.{
  ℕ, zero, suc, ◌+◌, ◌≤◌, ◌≡◌, refl, sym, ◌∙◌, String, str_eq, eq_refl, true, false, ◌&&◌, ◌||◌,
  not, Option, none, some, List, [], ◌∷◌, ◌++◌, All, All-append, any-append, map, length,
  length-append, count_if, arith, if◌then◌else◌, Bool-cases, Option-cases, inl, inr,
}
use security_review_ai.Prelude.Unique.{Unique}
use security_review_ai.Scanners.Web.{Sent, header, Reply, ParsedUrl, Web, request}
use security_review_ai.Scanners.BlackBox.Crawl.{
  Pages, is_html_type, link_pattern, max_crawl_pages, is_in, is_on_origin, checked_link,
  joined_link, links_of, new_links, crawl_from, crawl_origin, crawl,
}

module _ (web : Web) (origin : String) where
  abbrev pub IsOn : String → Type 0
  IsOn url = is_on_origin web origin (web.urlparse url) ≡ true

  abbrev HasAtMost : ℕ → Option Pages → Type 0
  HasAtMost n none = Unit
  HasAtMost n (some pages) = length pages ≤ n

  -- the URLs that are asked for, one after the other
  abbrev pub Asks : List String → List Sent → Option Pages × List Sent → Type 0
  Asks visited log r =
      (urls : List String) × (r.1 ≡ log ++ map request urls)
      × All IsOn urls
      × All (λ u. is_in u visited ≡ false) urls
      × Unique str_eq urls
      × HasAtMost max_crawl_pages r.0

  abbrev AllOn : Option (List String) → Type 0
  AllOn none = Unit
  AllOn (some links) = All IsOn links

  checked_link-IsOn :
      (visited : List String) (candidate : String) (o : Option ParsedUrl)
      (rest : Option (List String))
      → web.urlparse candidate ≡ o
      → AllOn rest
      → AllOn (checked_link web origin visited candidate o rest)
  checked_link-IsOn visited candidate none rest e h = tt
  checked_link-IsOn visited candidate (some p) none e h = tt
  checked_link-IsOn visited candidate (some p) (some l) e h =
      elim (Bool-cases (str_eq p.netloc origin && not (is_in candidate visited))) [
        | inl c ↦ rw (c, if◌then◌else◌) (rw e (ground arith), h)
        | inr c ↦ rw (c, if◌then◌else◌) h
      ]

  joined_link-IsOn :
      (visited : List String) (o : Option String) (rest : Option (List String))
      → AllOn rest
      → AllOn (joined_link web origin visited o rest)
  joined_link-IsOn visited none rest h = tt
  joined_link-IsOn visited (some candidate) rest h =
      checked_link-IsOn visited candidate (web.urlparse candidate) rest refl h

  links_of-IsOn :
      (visited : List String) (url : String) (hrefs : List String)
      → AllOn (links_of web origin visited url hrefs)
  links_of-IsOn visited url [] = tt
  links_of-IsOn visited url (href ∷ hrefs) =
      joined_link-IsOn visited (web.urljoin url href) _ (links_of-IsOn visited url hrefs)

  new_links-IsOn :
      (visited : List String) (url : String) (reply : Reply)
      → AllOn (new_links web origin visited url reply)
  new_links-IsOn visited url reply =
      elim (Bool-cases (is_html_type (header "content-type" reply.headers))) [
        | inl e ↦
            rw (e, new_links)
              (links_of-IsOn visited url (web.find_all link_pattern true reply.text))
        | inr e ↦ rw (e, new_links) tt
      ]

  not_in_more :
      (visited urls : List String) (url : String)
      → All (λ u. is_in u (visited ++ url ∷ []) ≡ false) urls
      → All (λ u. is_in u visited ≡ false) urls × (count_if (str_eq url) urls ≡ 0)
  not_in_more visited [] url h = (tt, refl)
  not_in_more visited (u ∷ urls) url (hu, h) =
      let (rest, none_more) = not_in_more visited urls url h in
      let apart : is_in u visited || (str_eq url u || false) ≡ false =
        sym (any-append (λ v. str_eq v u) visited (url ∷ [])) ∙ hu in
      ((ground arith, rest), ground arith)

  links-IsOn :
      (visited : List String) (url : String) (reply : Reply) (links : List String)
      → new_links web origin (visited ++ url ∷ []) url reply ≡ some links
      → All IsOn links
  links-IsOn visited url reply links n =
      subst AllOn n (new_links-IsOn (visited ++ url ∷ []) url reply)

  -- a request for a URL that was not visited, and what is asked for after it
  Asks-cons :
      (visited : List String) (url : String) (log : List Sent) (r : Option Pages × List Sent)
      → IsOn url
      → is_in url visited ≡ false
      → Asks (visited ++ url ∷ []) (log ++ request url ∷ []) r
      → Asks visited log r
  Asks-cons visited url log r on new (urls, e, all_on, all_new, apart, few) =
      let (rest_new, none_more) = not_in_more visited urls url all_new in
      (
        url ∷ urls,
        e ∙ append_assoc log (request url ∷ []) (map request urls),
        (on, all_on),
        (new, rest_new),
        (none_more, apart),
        few,
      )

  crawl_from-Asks :
      (left : ℕ) (visited queue : List String) (pages : Pages) (log : List Sent)
      → All IsOn queue
      → left + length pages ≤ max_crawl_pages
      → Asks visited log (crawl_from web origin left visited queue pages log)
  unfolding crawl_from
  crawl_from-Asks zero visited queue pages log on bound =
      ([], sym (append-nil log), tt, tt, tt, omega arith)
  crawl_from-Asks (suc left) visited [] pages log on bound =
      ([], sym (append-nil log), tt, tt, tt, omega arith)
  crawl_from-Asks (suc left) visited (url ∷ queue) pages log (url_on, on) bound =
      elim (Bool-cases (is_in url visited)) [
        | inl e ↦ rw (e, crawl_from) (crawl_from-Asks (suc left) visited queue pages log on bound)
        | inr new ↦ elim (Option-cases (web.answer log (request url))) [
          | inl e ↦
              rw (new, e, crawl_from)
                (Asks-cons visited url log _ url_on new (
                  crawl_from-Asks (suc left) (visited ++ url ∷ []) queue pages
                    (log ++ request url ∷ []) on bound))
          | inr (reply, e) ↦
              elim (Option-cases (new_links web origin (visited ++ url ∷ []) url reply)) [
                | inl n ↦
                    rw (new, e, n, crawl_from)
                      (Asks-cons visited url log (none, log ++ request url ∷ []) url_on new
                        ([], sym (append-nil (log ++ request url ∷ [])), tt, tt, tt, tt))
                | inr (links, n) ↦
                    rw (new, e, n, crawl_from)
                      (Asks-cons visited url log _ url_on new (
                        crawl_from-Asks left (visited ++ url ∷ []) (queue ++ links)
                          (pages ++ (url, reply) ∷ []) (log ++ request url ∷ [])
                          (All-append IsOn queue links on (links-IsOn visited url reply links n))
                          (ground (arith, length-append pages ((url, reply) ∷ [])))))
              ]
        ]
      ]

module _ (web : Web) where
  crawl_origin-Asks :
      (start_url : String) (p : ParsedUrl) (log : List Sent)
      → web.urlparse start_url ≡ some p
      → Asks web p.netloc [] log (crawl_origin web start_url (some p) log)
  crawl_origin-Asks start_url p log e =
      crawl_from-Asks web p.netloc max_crawl_pages [] (start_url ∷ []) [] log
        (rw e (eq_refl p.netloc), tt) (omega arith)

  -- If the start URL parses, the crawl ends whatever the site answers: it sends a sequence of
  -- plain GETs, each to a URL whose network location is that of the start URL and no URL twice,
  -- and if it returns pages they are at most 15.
  pub crawl-Asks :
      (start_url : String) (p : ParsedUrl) (log : List Sent)
      → web.urlparse start_url ≡ some p
      → Asks web p.netloc [] log (crawl web start_url log)
  unfolding crawl
  crawl-Asks start_url p log e = rw (e, crawl_origin) (crawl_origin-Asks start_url p log e)
