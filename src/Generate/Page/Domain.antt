-- ===== src/Generate/Page/Domain.antt =====
-- cmd/sendit/generate.go: the links of a page that the crawl follows.
use sendit.Prelude.{
  ◌≡◌, subst, All-append, Bool, true, false, ◌&&◌, List, [], ◌∷◌, none, some, if◌then◌else◌, All,
  Bool-cases, Option-cases, inl, inr, arith,
}
use sendit.Prelude.Text.{Text, codes, text_eq, contains}
use sendit.Generate.Url.{Url, Urls, normalize_crawl_url}
use sendit.Generate.Page.{
  Node, nil, node, Web, Response, link_of, href_links, extract_links, page_links, crawl_page,
  read_limited_response_body, max_crawl_html_bytes,
}

All-if :
    {A : Type 0} (P : A → Type 0) (b : Bool) (xs : List A) → All P xs → All P (if b then xs else [])
All-if P true xs h = h
All-if P false xs h = tt

module _ (urls : Urls) (base : Url) where
  -- An address on the host of the seed, in the form that the crawl compares.
  pub record OnHost (raw : Text) : Type 0 where
    pub url : Url
    pub printed : raw ≡ urls.print url
    pub same_scheme : text_eq url.scheme base.scheme ≡ true
    pub same_host : text_eq url.host base.host ≡ true

  link_of-OnHost :
      (page : Url) (href link : Text) → link_of urls page base href ≡ some link → OnHost link
  unfolding link_of
  link_of-OnHost page href link e = elim (Option-cases (urls.parse href)) [
    | inl bad ↦ absurd (cc (rw (bad, link_of) at e))
    | inr (ref, good) ↦
        let abs = normalize_crawl_url (urls.resolve page ref) in found abs (rw (good, link_of) at e)
  ]
    where
      found :
          (abs : Url)
          → (if text_eq abs.scheme base.scheme && text_eq abs.host base.host
              then some (urls.print abs)
              else none)
            ≡ some link
          → OnHost link
      found abs h =
          elim (Bool-cases (text_eq abs.scheme base.scheme && text_eq abs.host base.host)) [
            | inl same ↦ record {
              url = abs;
              printed = cc (rw same at h);
              same_scheme = ground (arith, same);
              same_host = ground (arith, same);
            }
            | inr other ↦ absurd (cc (rw other at h))
          ]

  href_links-OnHost :
      (page : Url) (attrs : List (Text × Text)) → All OnHost (href_links urls page base attrs)
  unfolding href_links
  href_links-OnHost page [] = tt
  href_links-OnHost page ((key, val) ∷ attrs) = elim (Bool-cases (text_eq key (codes "href"))) [
    | inl is_href ↦ elim (Option-cases (link_of urls page base val)) [
      | inl bad ↦ rw (is_href, bad, href_links) tt
      | inr (link, good) ↦ rw (is_href, good, href_links) (link_of-OnHost page val link good, tt)
    ]
    | inr other ↦ rw (other, href_links) (href_links-OnHost page attrs)
  ]

  extract_links-OnHost : (page : Url) (n : Node) → All OnHost (extract_links urls page base n)
  unfolding extract_links
  extract_links-OnHost page nil = tt
  extract_links-OnHost page (node is_element name attrs child next) =
      All-append OnHost _ _
        (All-append OnHost _ _
          (All-if OnHost (is_element && text_eq name (codes "a")) _ (href_links-OnHost page attrs))
          (extract_links-OnHost page child))
        (extract_links-OnHost page next)

  pub crawl_page-OnHost :
      (web : Web) (raw : Text) (links : List Text)
      → crawl_page urls web raw base ≡ some links
      → All OnHost links
  unfolding crawl_page page_links
  crawl_page-OnHost web raw links e = elim (Option-cases (urls.parse raw)) [
    | inl bad ↦ absurd (cc (rw (bad, crawl_page) at e))
    | inr (page, good) ↦ elim (Option-cases (web.fetch raw)) [
      | inl bad ↦ absurd (cc (rw (good, bad, crawl_page) at e))
      | inr (r, got) ↦ fetched page r (rw (good, got, crawl_page) at e)
    ]
  ]
    where
      fetched :
          (page : Url) (r : Response)
          → page_links urls web r page base ≡ some links
          → All OnHost links
      fetched page r h = elim (Bool-cases (contains r.content_type (codes "text/html"))) [
        | inl html ↦ elim (Option-cases (read_limited_response_body r max_crawl_html_bytes)) [
          | inl bad ↦ absurd (cc (rw (html, bad, page_links) at h))
          | inr (body, read) ↦ elim (Option-cases (web.parse_html body)) [
            | inl bad ↦ absurd (cc (rw (html, read, bad, page_links) at h))
            | inr (doc, parsed) ↦
                let same : extract_links urls page base doc ≡ links =
                  cc (rw (html, read, parsed, page_links) at h) in
                subst (All OnHost) same (extract_links-OnHost page doc)
          ]
        ]
        | inr other ↦
            let none_there : [] ≡ links = cc (rw (other, page_links) at h) in
            subst (All OnHost) none_there tt
      ]
