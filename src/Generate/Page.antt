-- ===== src/Generate/Page.antt =====
-- cmd/sendit/generate.go: `crawlPage`, `extractLinks`, `fetchSitemapLocs` and `readLimitedResponseBody`.
-- What a fetch returns, and the decoders of HTML and of sitemaps, are parameters.
pub mod Domain
use sendit.Prelude.{
  ℕ, ◌+◌, ◌*◌, ◌==◌, Bool, true, false, not, ◌&&◌, List, [], ◌∷◌, ◌++◌, Option, none, some,
  if◌then◌else◌, length, ltb,
}
use sendit.Prelude.Text.{Text, codes, text_eq, contains}
use sendit.Config.Validate.{is_empty}
use sendit.Generate.Url.{Url, Urls, normalize_crawl_url}
use sendit.Generate.Robots.{robots_info}

-- `html.Node`, by its first child and its next sibling.
pub data Node : Type 0 where
  nil : Node
  node :
      (is_element : Bool) (name : Text) (attrs : List (Text × Text)) (first_child : Node)
      (next_sibling : Node)
      → Node

-- A response; `body` is none if reading it fails.
pub record Response : Type 0 where
  pub status_code : ℕ
  pub content_type : Text
  pub body : Option Text

unfoldable pub read_limited_response_body : Response → ℕ → Option Text
read_limited_response_body r max_bytes = elim r.body [
  | none ↦ none
  | some body ↦ if ltb max_bytes (length body) then none else some body
]

abbrev pub max_crawl_html_bytes : ℕ
max_crawl_html_bytes = 5 * 1048576

abbrev pub max_crawl_sitemap_bytes : ℕ
max_crawl_sitemap_bytes = 1048576

-- The values that are not empty.
unfoldable pub given : List Text → List Text
unfolding is_empty
given [] = []
given (s ∷ ss) = let rest = given ss in if is_empty s then rest else s ∷ rest

-- The web as the crawl sees it: `client.Do` on a GET, if it succeeds, `html.Parse`, and the
-- locations of the `url` and of the `sitemap` entries that the XML decoder finds, and the lines that
-- `bufio.Scanner` reads of a body.
pub record Web : Type 0 where
  pub fetch : Text → Option Response
  pub parse_html : Text → Option Node
  pub decode_sitemap : Text → Option (List Text × List Text)
  pub lines : Response → List Text

-- The address of a host's robots.txt.
abbrev pub robots_url : Url → Url
robots_url base = record {
  scheme = base.scheme;
  host = base.host;
  path = codes "/robots.txt";
  raw_query = [];
  fragment = [];
  others = [];
}

module _ (urls : Urls) where
  -- The address of a link, if it stays on the host.
  unfoldable pub link_of : Url → Url → Text → Option Text
  unfolding normalize_crawl_url text_eq
  link_of page base href = elim (urls.parse href) [
    | none ↦ none
    | some ref ↦
        let abs = normalize_crawl_url (urls.resolve page ref) in
        if text_eq abs.scheme base.scheme && text_eq abs.host base.host
        then some (urls.print abs)
        else none
  ]

  -- The loop over the attributes, up to the first `href`.
  unfoldable pub href_links : Url → Url → List (Text × Text) → List Text
  unfolding link_of text_eq
  href_links page base [] = []
  href_links page base ((key, val) ∷ attrs) =
      let rest = href_links page base attrs in
      if text_eq key (codes "href")
      then (elim (link_of page base val) [ none ↦ [] | some link ↦ link ∷ [] ])
      else rest

  -- `extractLinks`: the node, its children, and its siblings behind it. The root has none.
  unfoldable pub extract_links : Url → Url → Node → List Text
  unfolding href_links text_eq
  extract_links page base nil = []
  extract_links page base (node is_element name attrs child next) =
      (if is_element && text_eq name (codes "a") then href_links page base attrs else [])
      ++ extract_links page base child
      ++ extract_links page base next

  module _ (web : Web) where
    -- What `crawlPage` makes of a response; none is an error.
    unfoldable pub page_links : Response → Url → Url → Option (List Text)
    unfolding extract_links read_limited_response_body contains
    page_links r page base =
        if contains r.content_type (codes "text/html")
        then (elim (read_limited_response_body r max_crawl_html_bytes) [
          | none ↦ none
          | some body ↦ elim (web.parse_html body) [
            | none ↦ none
            | some doc ↦ some (extract_links page base doc)
          ]
        ])
        else some []

    -- `crawlPage`.
    unfoldable pub crawl_page : Text → Url → Option (List Text)
    unfolding page_links
    crawl_page raw base = elim (urls.parse raw) [
      | none ↦ none
      | some page ↦ elim (web.fetch raw) [ none ↦ none | some r ↦ page_links r page base ]
    ]

    -- `fetchSitemapLocs`.
    unfoldable pub fetch_sitemap_locs : Text → Option (List Text)
    unfolding read_limited_response_body given
    fetch_sitemap_locs raw = elim (urls.parse raw) [
      | none ↦ none
      | some u ↦ elim (web.fetch raw) [
        | none ↦ none
        | some r ↦
            if r.status_code == 200
            then (elim (read_limited_response_body r max_crawl_sitemap_bytes) [
              | none ↦ none
              | some body ↦ elim (web.decode_sitemap body) [
                | none ↦ none
                | some (pages, sitemaps) ↦ some (given pages ++ given sitemaps)
              ]
            ])
            else some []
      ]
    ]

    -- `fetchRobotsInfo`.
    unfoldable pub fetch_robots_info : Url → List Text × List Text
    unfolding robots_info
    fetch_robots_info base = elim (web.fetch (urls.print (robots_url base))) [
      | none ↦ ([], [])
      | some r ↦ if r.status_code == 200 then robots_info (web.lines r) else ([], [])
    ]
