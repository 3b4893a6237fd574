-- ===== src/Generate/Crawl.antt =====
-- cmd/sendit/generate.go: the breadth-first loop of `targetsFromCrawl`.
-- A negative depth or number of pages does what 0 does. The loop runs on fuel, one for each item that it
-- takes from the queue.
pub mod Domain
pub mod Kept
pub mod Sound
pub mod Ends
pub mod Returned
pub mod Typical
mod Tests
use sendit.Prelude.{
  ℕ, zero, suc, ◌+◌, Bool, true, false, not, ◌&&◌, List, [], ◌∷◌, ◌++◌, Option, none, some,
  if◌then◌else◌, ltb, leb, length, Result, ok, err,
}
use sendit.Prelude.Int.{pos}
use sendit.Prelude.Text.{Text, codes, text_eq, one_of}
use sendit.Config.Schema.{TargetConfig}
use sendit.Generate.Url.{Url, Urls, normalize_crawl_url, is_html_url, is_sitemap_url, is_disallowed}
use sendit.Generate.Page.{Web, crawl_page, fetch_sitemap_locs, fetch_robots_info}
use sendit.Generate.Targets.{default_target}

pub record Item : Type 0 where
  pub url : Text
  pub depth : ℕ
  pub sitemap : Bool

pub record Crawl : Type 0 where
  pub visited : List Text
  pub queue : List Item
  pub targets : List TargetConfig

-- `if !visited[u] { … }`: the URL is marked and queued.
unfoldable pub offer : Crawl → Text → ℕ → Bool → Crawl
unfolding one_of
offer c url depth sitemap = if one_of url c.visited then c else record c {
  visited = url ∷ c.visited;
  queue = c.queue ++ (record { url = url; depth = depth; sitemap = sitemap } ∷ []);
}

unfoldable pub offer_all : (Text → Bool) → ℕ → Crawl → List Text → Crawl
unfolding offer
offer_all is_sitemap depth c [] = c
offer_all is_sitemap depth c (url ∷ rest) =
    offer_all is_sitemap depth (offer c url depth (is_sitemap url)) rest

pub data CrawlError : Type 0 where
  invalid_seed wrong_scheme : CrawlError

pub data Outcome : Type 0 where
  done : Crawl → Outcome
  out_of_fuel : Outcome

module _ (urls : Urls) where
  -- The sitemaps of robots.txt on the host of the seed.
  unfoldable pub seeded : Url → List Text → List Text
  unfolding normalize_crawl_url text_eq
  seeded base [] = []
  seeded base (s ∷ ss) =
      let rest = seeded base ss in
      elim (urls.parse s) [
        | none ↦ rest
        | some u ↦
            if text_eq u.scheme base.scheme && text_eq u.host base.host
            then urls.print (normalize_crawl_url u) ∷ rest
            else rest
      ]

  -- The locations of a sitemap on the host of the seed, with its scheme.
  unfoldable pub located : Url → List Text → List Text
  unfolding normalize_crawl_url text_eq
  located base [] = []
  located base (loc ∷ locs) =
      let rest = located base locs in
      elim (urls.parse loc) [
        | none ↦ rest
        | some u ↦
            if text_eq u.host base.host
            then urls.print (normalize_crawl_url (record u { scheme = base.scheme })) ∷ rest
            else rest
      ]

  module _ (web : Web) (base : Url) (disallowed : List Text) (max_depth max_pages : ℕ) where
    -- A round of the loop on the item taken from the queue.
    unfoldable pub visit_sitemap : Crawl → Item → Crawl
    unfolding fetch_sitemap_locs located offer_all
    visit_sitemap c item = elim (fetch_sitemap_locs urls web item.url) [
      | none ↦ c
      | some locs ↦ offer_all (is_sitemap_url urls) 0 c (located base locs)
    ]

    -- The links of a page that is a target.
    unfoldable pub follow : Crawl → Item → Crawl
    unfolding crawl_page offer_all
    follow c item =
        if leb max_depth item.depth then c else (elim (crawl_page urls web item.url base) [
          | none ↦ c
          | some links ↦ offer_all (is_sitemap_url urls) (item.depth + 1) c links
        ])

    unfoldable pub visit_page : Crawl → Item → Crawl
    unfolding follow default_target
    visit_page c item =
        follow
          (record c {
            targets = c.targets ++ (default_target item.url (codes "http") (pos 1) ∷ []);
          })
          item

    unfoldable pub visit : Crawl → Item → Crawl
    unfolding is_disallowed visit_sitemap is_html_url visit_page
    visit c item =
        if is_disallowed urls item.url disallowed
        then c
        else if item.sitemap
        then visit_sitemap c item
        else if is_html_url urls item.url
        then visit_page c item
        else c

    unfoldable pub loop : ℕ → Crawl → Outcome
    unfolding visit
    loop zero c = elim c.queue [
      | [] ↦ done c
      | item ∷ rest ↦ if ltb (length c.targets) max_pages then out_of_fuel else done c
    ]
    loop (suc fuel) c = elim c.queue [
      | [] ↦ done c
      | item ∷ rest ↦ elim (ltb (length c.targets) max_pages) [
        | true ↦ loop fuel (visit (record c { queue = rest }) item)
        | false ↦ done c
      ]
    ]

  -- The queue that the loop starts with, on the seed in normal form and the sitemaps of robots.txt.
  unfoldable pub start : Url → List Text → Crawl
  unfolding seeded offer_all
  start base sitemaps =
      offer_all (λ _. true) 0
        (record {
          visited = urls.print base ∷ [];
          queue = record { url = urls.print base; depth = 0; sitemap = false } ∷ [];
          targets = [];
        })
        (seeded base sitemaps)

  -- `targetsFromCrawl`, with `fuel` rounds.
  unfoldable pub targets_from_crawl : Web → Text → ℕ → ℕ → Bool → ℕ → Result CrawlError Outcome
  unfolding one_of normalize_crawl_url fetch_robots_info start loop
  targets_from_crawl web seed max_depth max_pages ignore_robots fuel = elim (urls.parse seed) [
    | none ↦ err invalid_seed
    | some u ↦
        if one_of u.scheme (codes "http" ∷ codes "https" ∷ [])
        then (let base = normalize_crawl_url u in
            let info = if ignore_robots then ([], []) else fetch_robots_info urls web base in
            ok (loop web base info.0 max_depth max_pages fuel (start base info.1)))
        else err wrong_scheme
  ]
