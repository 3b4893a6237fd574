-- ===== src/Generate/Crawl/Returned.antt =====
-- cmd/sendit/generate.go: what `targetsFromCrawl` returns for a seed.
use sendit.Prelude.{
  ap, arith, false, subst, ◌==◌, All-mono, ℕ, suc, ◌≤◌, ◌≡◌, Bool, true, List, [], ◌∷◌, some,
  if◌then◌else◌, length, All, Result, ok, refl, Bool-cases, Option-cases, inl, inr,
}
use sendit.Prelude.Text.{Text, codes, one_of, text_eq, text_eq_iff, has_prefix}
use sendit.Prelude.Distinct.{IsDistinct}
use sendit.Engine.Reload.{urls}
use sendit.Generate.Url.{Url, Urls, normalize_crawl_url, starts_with_any, is_disallowed}
use sendit.Generate.Page.{
  Web, Response, robots_url, crawl_page, fetch_sitemap_locs, fetch_robots_info,
}
use sendit.Generate.Crawl.{Crawl, Outcome, CrawlError, done, seeded, located, targets_from_crawl}
use sendit.Generate.Robots.Groups.{Forbids, robots_info-Forbids}
use sendit.Generate.Crawl.Ends.{loop_ends}
use sendit.Generate.Crawl.Sound.{IsCrawlable, loop-IsCrawlable}

one_start :
    (path p : Text) (ps : List Text)
    → one_of p ps ≡ true
    → starts_with_any path ps ≡ false
    → starts_with_any path (p ∷ []) ≡ false
unfolding starts_with_any one_of
one_start path p [] h allowed = absurd (cc h)
one_start path p (q ∷ ps) h allowed = elim (Bool-cases (text_eq q p)) [
  | inl same ↦
      let apart : has_prefix path q ≡ false = ground (arith, allowed) in
      ground (arith, apart, ap (has_prefix path) ((text_eq_iff q p).0 same))
  | inr other ↦ one_start path p ps (rw other at h) (ground (arith, allowed))
]

module _ (net : Urls) (web : Web) (seed : Text) (max_depth max_pages : ℕ)
    (ignore_robots : Bool) where
  -- What `fetchRobotsInfo` returns for the host of the seed: the disallowed prefixes and the sitemaps.
  unfoldable pub robots : Url → List Text × List Text
  unfolding fetch_robots_info normalize_crawl_url
  robots u = if ignore_robots then ([], []) else fetch_robots_info net web (normalize_crawl_url u)

  ok-inj : {r : Result CrawlError Outcome} {a b : Outcome} → r ≡ ok a → r ≡ ok b → a ≡ b
  ok-inj e f = cc (e, f)

  -- When a crawl returns targets, its seed is an http or https URL, it returns at most `max_pages` targets, no two
  -- with the same URL, and each URL is on the host of the seed, is not of a type that is no HTML, and is under none of
  -- the prefixes that `fetchRobotsInfo` returns for that host as disallowed, unless robots.txt is ignored.
  pub targets_from_crawl-IsCrawlable :
      (fuel : ℕ) (final : Crawl)
      → targets_from_crawl net web seed max_depth max_pages ignore_robots fuel ≡ ok (done final)
      → (u : Url) × (net.parse seed ≡ some u)
        × (one_of u.scheme (codes "http" ∷ codes "https" ∷ []) ≡ true)
        × All
            (IsCrawlable net web (normalize_crawl_url u) (robots u).0 max_depth max_pages)
            (urls final.targets)
        × IsDistinct (urls final.targets)
        × (length final.targets ≤ max_pages)
  unfolding targets_from_crawl robots
  targets_from_crawl-IsCrawlable fuel final e = elim (Option-cases (net.parse seed)) [
    | inl bad ↦ absurd (cc (rw (bad, targets_from_crawl) at e))
    | inr (u, good) ↦ elim (Bool-cases (one_of u.scheme (codes "http" ∷ codes "https" ∷ []))) [
      | inl web_scheme ↦
          let found =
            loop-IsCrawlable net web (normalize_crawl_url u) (robots u).0 max_depth max_pages
              (robots u).1 fuel final
              (ok-inj refl (rw (good, web_scheme, targets_from_crawl) at e)) in
          (u, good, web_scheme, found.0, found.1, found.2)
      | inr other ↦ absurd (cc (rw (good, other, targets_from_crawl) at e))
    ]
  ]

  -- For an http or https seed, where `reach` has each link that a page of the site offers, each location that a
  -- sitemap of the site offers and each sitemap of its robots.txt, the crawl returns after at most one round more
  -- than `reach` has URLs.
  pub targets_from_crawl_returns :
      (reach : List Text) (u : Url)
      → net.parse seed ≡ some u
      → one_of u.scheme (codes "http" ∷ codes "https" ∷ []) ≡ true
      → ((raw : Text) (links : List Text)
          → crawl_page net web raw (normalize_crawl_url u) ≡ some links
          → All (λ link. one_of link reach ≡ true) links)
      → ((raw : Text) (locs : List Text)
          → fetch_sitemap_locs net web raw ≡ some locs
          → All (λ link. one_of link reach ≡ true) (located net (normalize_crawl_url u) locs))
      → All (λ link. one_of link reach ≡ true) (seeded net (normalize_crawl_url u) (robots u).1)
      → (final : Crawl) × (targets_from_crawl net web seed max_depth max_pages ignore_robots
            (suc (length reach))
          ≡ ok (done final))
  unfolding targets_from_crawl robots
  targets_from_crawl_returns reach u good web_scheme pages maps sitemaps =
      let ends =
        loop_ends reach net web (normalize_crawl_url u) (robots u).0 max_depth max_pages pages maps
          (robots u).1 sitemaps in
      (ends.0, simp (good, web_scheme, targets_from_crawl, ends.1))

  one_prefix :
      (raw p : Text) (ps : List Text)
      → one_of p ps ≡ true
      → is_disallowed net raw ps ≡ false
      → is_disallowed net raw (p ∷ []) ≡ false
  unfolding is_disallowed starts_with_any
  one_prefix raw p ps h allowed = elim (Option-cases (net.parse raw)) [
    | inl bad ↦ rw (bad, is_disallowed) refl
    | inr (u, good) ↦
        rw (good, is_disallowed) (one_start u.path p ps h (rw (good, is_disallowed) at allowed))
  ]

  -- When a crawl that does not ignore robots.txt returns targets, and the robots.txt of its seed's host is there and
  -- forbids a prefix to all agents, by a line `Disallow` below a line `User-agent: *` with no blank line and no other
  -- agent between them, then no target has a path with that prefix.
  pub targets_from_crawl-Forbids :
      (fuel : ℕ) (final : Crawl) (u : Url) (r : Response) (p : Text)
      → ignore_robots ≡ false
      → targets_from_crawl net web seed max_depth max_pages ignore_robots fuel ≡ ok (done final)
      → net.parse seed ≡ some u
      → web.fetch (net.print (robots_url (normalize_crawl_url u))) ≡ some r
      → (r.status_code == 200) ≡ true
      → Forbids p (web.lines r)
      → All (λ raw. is_disallowed net raw (p ∷ []) ≡ false) (urls final.targets)
  unfolding robots fetch_robots_info
  targets_from_crawl-Forbids fuel final u r p obeys e parsed there found forbids =
      let (v, parsed_too, scheme, crawlable, distinct, few) =
        targets_from_crawl-IsCrawlable fuel final e in
      let same : v ≡ u = cc (parsed, parsed_too) in
      let listed : one_of p (robots u).0 ≡ true =
        simp (obeys, there, found, fetch_robots_info)
          (robots_info-Forbids p (web.lines r) forbids) in
      All-mono (IsCrawlable net web (normalize_crawl_url u) (robots u).0 max_depth max_pages)
        (λ raw. is_disallowed net raw (p ∷ []) ≡ false)
        (λ raw k. one_prefix raw p (robots u).0 listed k.allowed) (urls final.targets)
        (subst
          (λ w.
            All (IsCrawlable net web (normalize_crawl_url w) (robots w).0 max_depth max_pages)
              (urls final.targets))
          same crawlable)
