-- ===== src/Generate/Crawl/Tests.antt =====
-- cmd/sendit/generate.go: a crawl of a small site.
use sendit.Prelude.{
  Bool-cases, inl, inr, Option-cases, subst, ◌≡◌, refl, true, false, List, [], ◌∷◌, ◌++◌, Option,
  none, some, if◌then◌else◌, ◌==◌, length, All, Result, ok, err, ◌≤◌,
}
use sendit.Prelude.Text.{Text, codes, text_eq, text_eq_iff, one_of}
use sendit.Prelude.Distinct.{IsDistinct}
use sendit.Engine.Reload.{urls}
use sendit.Generate.Url.{Url, Urls, is_sitemap_url, normalize_crawl_url}
use sendit.Generate.Robots.{split_colon}
use sendit.Generate.Page.{Node, nil, node, Response, Web, crawl_page, fetch_sitemap_locs}
use sendit.Prelude.Int.{pos}
use sendit.Generate.Targets.{default_target}
use sendit.Generate.Url.{is_disallowed}
use sendit.Config.Validate.{is_empty}
use sendit.Generate.Robots.Groups.{named, Forbids, group, here}
use sendit.Generate.Crawl.{
  Crawl, Outcome, done, CrawlError, invalid_seed, wrong_scheme, loop, seeded, located,
  targets_from_crawl,
}
use sendit.Generate.Crawl.Sound.{IsCrawlable}
use sendit.Generate.Crawl.Returned.{
  robots, targets_from_crawl-Forbids, targets_from_crawl-IsCrawlable, targets_from_crawl_returns,
}

unfoldable before_slash : Text → Text
before_slash [] = []
before_slash (c ∷ s) = let rest = before_slash s in if c == b'/' then [] else c ∷ rest

unfoldable from_slash : Text → Text
from_slash [] = []
from_slash (c ∷ s) = let rest = from_slash s in if c == b'/' then c ∷ s else rest

unfoldable skip_two : Text → Text
skip_two (a ∷ b ∷ s) = s
skip_two s = s

-- URLs with a scheme, a host and a path, and no reference but such a URL.
unfoldable small_parse : Text → Option Url
unfolding split_colon before_slash from_slash skip_two
small_parse s = elim (split_colon s) [
  | none ↦ none
  | some (scheme, rest) ↦ some (record {
    scheme = scheme;
    host = before_slash (skip_two rest);
    path = from_slash (skip_two rest);
    raw_query = [];
    fragment = [];
    others = [];
  })
]

unfoldable small_print : Url → Text
small_print u = u.scheme ++ codes "://" ++ u.host ++ u.path

abbrev small_urls : Urls
small_urls = record { parse = small_parse; print = small_print; resolve = λ page ref. ref }

abbrev anchor : Text → Node → Node
anchor href next = node true (codes "a") ((codes "href", href) ∷ []) nil next

-- The home page links to a page, a picture and another site.
abbrev home : Node
home =
    anchor (codes "http://a/x") (anchor (codes "http://a/p.png") (anchor (codes "http://b/") nil))

unfoldable small_fetch : Text → Option Response
unfolding text_eq
small_fetch s =
    if text_eq s (codes "http://a/")
    then some
        (record { status_code = 200; content_type = codes "text/html"; body = some (codes "home") })
    else none

abbrev small_web : Web
small_web = record {
  fetch = small_fetch;
  parse_html = λ body. some home;
  decode_sitemap = λ body. none;
  lines = λ r. [];
}

unfoldable urls_of : Result CrawlError Outcome → Option (List Text)
urls_of (ok (done c)) = some (urls c.targets)
urls_of _ = none

small_crawl :
    urls_of (targets_from_crawl small_urls small_web (codes "http://a/") 1 10 false 4)
    ≡ some (codes "http://a/" ∷ codes "http://a/x" ∷ [])
unfolding urls_of targets_from_crawl small_parse small_print small_fetch is_sitemap_url
small_crawl = refl

no_scheme : targets_from_crawl small_urls small_web (codes "a") 1 10 false 4 ≡ err invalid_seed
unfolding targets_from_crawl small_parse
no_scheme = refl

other_scheme :
    targets_from_crawl small_urls small_web (codes "ftp://a/") 1 10 false 4 ≡ err wrong_scheme
unfolding targets_from_crawl small_parse
other_scheme = refl

abbrev seed : Url
seed = record {
  scheme = codes "http";
  host = codes "a";
  path = codes "/";
  raw_query = [];
  fragment = [];
  others = [];
}

abbrev small_reach : List Text
small_reach = codes "http://a/x" ∷ codes "http://a/p.png" ∷ []

small_pages :
    (raw : Text) (links : List Text)
    → crawl_page small_urls small_web raw seed ≡ some links
    → All (λ u. one_of u small_reach ≡ true) links
unfolding crawl_page small_parse small_print small_fetch one_of
small_pages raw links e = elim (Bool-cases (text_eq raw (codes "http://a/"))) [
  | inl same ↦
      let found : some small_reach ≡ some links =
        subst (λ r. crawl_page small_urls small_web r seed ≡ some links)
          ((text_eq_iff raw (codes "http://a/")).0 same) e in
      let it : small_reach ≡ links = cc found in
      subst (All (λ u. one_of u small_reach ≡ true)) it (refl, (refl, tt))
  | inr other ↦ elim (Option-cases (small_parse raw)) [
    | inl bad ↦ absurd (cc (rw (bad, crawl_page) at e))
    | inr (u, good) ↦ absurd (cc (rw (good, other, crawl_page, small_fetch) at e))
  ]
]

small_maps :
    (raw : Text) (locs : List Text)
    → fetch_sitemap_locs small_urls small_web raw ≡ some locs
    → All (λ u. one_of u small_reach ≡ true) (located small_urls seed locs)
unfolding fetch_sitemap_locs small_parse small_fetch
small_maps raw locs e = elim (Option-cases (small_parse raw)) [
  | inl bad ↦ absurd (cc (rw (bad, fetch_sitemap_locs) at e))
  | inr (u, good) ↦ elim (Bool-cases (text_eq raw (codes "http://a/"))) [
    | inl same ↦ absurd (cc (rw (good, same, fetch_sitemap_locs, small_fetch) at e))
    | inr other ↦ absurd (cc (rw (good, other, fetch_sitemap_locs, small_fetch) at e))
  ]
]

targets_from_crawl_returns_example :
    (final : Crawl) × (targets_from_crawl small_urls small_web (codes "http://a/") 1 10 false 3
      ≡ ok (done final))
unfolding seeded small_parse small_print small_fetch one_of robots
targets_from_crawl_returns_example =
    targets_from_crawl_returns small_urls small_web (codes "http://a/") 1 10 false small_reach seed
      refl refl small_pages small_maps tt

-- The site with a robots.txt that keeps crawlers from the page.
unfoldable guarded_fetch : Text → Option Response
unfolding text_eq small_fetch
guarded_fetch s =
    if text_eq s (codes "http://a/robots.txt")
    then some
        (record { status_code = 200; content_type = codes "text/plain"; body = some (codes "/x") })
    else small_fetch s

abbrev guarded_web : Web
guarded_web = record {
  fetch = guarded_fetch;
  parse_html = λ body. some home;
  decode_sitemap = λ body. none;
  lines = λ r. codes "User-agent: *" ∷ codes "Disallow: /x" ∷ [];
}

abbrev guarded : Crawl
guarded = record {
  visited = codes "http://a/p.png" ∷ codes "http://a/x" ∷ codes "http://a/" ∷ [];
  queue = [];
  targets = default_target (codes "http://a/") (codes "http") (pos 1) ∷ [];
}

targets_from_crawl-IsCrawlable_example :
    (u : Url) × (small_parse (codes "http://a/") ≡ some u)
    × (one_of u.scheme (codes "http" ∷ codes "https" ∷ []) ≡ true)
    × All
        (IsCrawlable small_urls guarded_web
          (normalize_crawl_url u)
          (robots small_urls guarded_web (codes "http://a/") 1 10 false u).0
          1
          10)
        (urls guarded.targets)
    × IsDistinct (urls guarded.targets)
    × (length guarded.targets ≤ 10)
unfolding targets_from_crawl loop small_parse small_print guarded_fetch small_fetch is_sitemap_url
targets_from_crawl-IsCrawlable_example =
    targets_from_crawl-IsCrawlable small_urls guarded_web (codes "http://a/") 1 10 false 4 guarded
      refl

abbrev robots_file : Response
robots_file = record {
  status_code = 200;
  content_type = codes "text/plain";
  body = some (codes "/x");
}

x_is_forbidden : Forbids (codes "/x") (guarded_web.lines robots_file)
unfolding named is_empty
x_is_forbidden = group refl (here refl refl)

targets_from_crawl-Forbids_example :
    All (λ raw. is_disallowed small_urls raw (codes "/x" ∷ []) ≡ false) (urls guarded.targets)
unfolding targets_from_crawl loop small_parse small_print guarded_fetch small_fetch is_sitemap_url
targets_from_crawl-Forbids_example =
    targets_from_crawl-Forbids small_urls guarded_web (codes "http://a/") 1 10 false 4 guarded seed
      robots_file (codes "/x") refl refl refl refl refl x_is_forbidden
