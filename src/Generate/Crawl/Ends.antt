-- ===== src/Generate/Crawl/Ends.antt =====
-- cmd/sendit/generate.go: the loop of `targetsFromCrawl` ends on a site with finitely many links.
use sendit.Prelude.{
  ℕ, zero, suc, ◌+◌, ◌≤◌, ◌<◌, ◌≡◌, sym, ap, Bool, true, false, List, [], ◌∷◌, ◌++◌, some,
  if◌then◌else◌, ltb, leb, length, length-append, All, arith, Bool-cases, Option-cases, List-cases,
  inl, inr,
}
use sendit.Prelude.Int.{pos}
use sendit.Prelude.Text.{Text, codes, text_eq, text_eq_iff, one_of}
use sendit.Generate.Url.{Url, Urls, is_html_url, is_sitemap_url, is_disallowed}
use sendit.Generate.Page.{Web, crawl_page, fetch_sitemap_locs}
use sendit.Generate.Targets.{default_target}
use sendit.Generate.Crawl.{
  Item, Crawl, offer, offer_all, done, seeded, located, visit_sitemap, visit_page, follow, visit,
  loop, start,
}

-- How many of the URLs are not marked.
unfoldable fresh : List Text → List Text → ℕ
unfolding one_of
fresh [] visited = 0
fresh (u ∷ us) visited = let rest = fresh us visited in if one_of u visited then rest else suc rest

fresh≤length : (us visited : List Text) → fresh us visited ≤ length us
unfolding fresh
fresh≤length [] visited = omega arith
fresh≤length (u ∷ us) visited = ground (arith, fresh≤length us visited)

fresh-mark_le : (us visited : List Text) (u : Text) → fresh us (u ∷ visited) ≤ fresh us visited
unfolding fresh one_of
fresh-mark_le [] visited u = omega arith
fresh-mark_le (x ∷ us) visited u = ground (arith, fresh-mark_le us visited u)

fresh-mark :
    (us visited : List Text) (u : Text)
    → one_of u us ≡ true
    → one_of u visited ≡ false
    → fresh us (u ∷ visited) < fresh us visited
unfolding fresh one_of
fresh-mark [] visited u here new = absurd (cc here)
fresh-mark (x ∷ us) visited u here new = elim (Bool-cases (text_eq x u)) [
  | inl same ↦
      let x_is_u : x ≡ u = (text_eq_iff x u).0 same in
      ground (
        arith,
        text_eq_iff u x,
        sym x_is_u,
        ap (λ t. one_of t visited) x_is_u,
        new,
        fresh-mark_le us visited u,
      )
  | inr other ↦ ground (arith, other, here, fresh-mark us visited u)
]

module _ (reach : List Text) where
  -- How many items the queue can still take, and has.
  unfoldable budget : Crawl → ℕ
  unfolding fresh
  budget c = fresh reach c.visited + length c.queue

  IsReach : Text → Type 0
  IsReach u = one_of u reach ≡ true

  offer-budget :
      (c : Crawl) (url : Text) (depth : ℕ) (sitemap : Bool)
      → one_of url reach ≡ true
      → budget (offer c url depth sitemap) ≤ budget c
  unfolding budget offer
  offer-budget c url depth sitemap h = elim (Bool-cases (one_of url c.visited)) [
    | inl old ↦ rw (old, offer) (omega arith)
    | inr new ↦
        rw (new, offer)
          (omega (
            arith,
            fresh-mark reach c.visited url h new,
            length-append c.queue (record { url = url; depth = depth; sitemap = sitemap } ∷ []),
          ))
  ]

  offer_all-budget :
      (is_sitemap : Text → Bool) (depth : ℕ) (c : Crawl) (us : List Text)
      → All (λ u. one_of u reach ≡ true) us
      → budget (offer_all is_sitemap depth c us) ≤ budget c
  unfolding offer_all
  offer_all-budget is_sitemap depth c [] h = omega arith
  offer_all-budget is_sitemap depth c (u ∷ us) h = omega (
    arith,
    offer-budget c u depth (is_sitemap u) h.0,
    offer_all-budget is_sitemap depth (offer c u depth (is_sitemap u)) us h.1,
  )

  module _ (net : Urls) (web : Web) (base : Url) (disallowed : List Text) (max_depth max_pages : ℕ)
      (pages : (raw : Text) (links : List Text)
        → crawl_page net web raw base ≡ some links
        → All (λ u. one_of u reach ≡ true) links)
      (maps : (raw : Text) (locs : List Text)
        → fetch_sitemap_locs net web raw ≡ some locs
        → All (λ u. one_of u reach ≡ true) (located net base locs)) where
    visit_sitemap-budget :
        (c : Crawl) (item : Item)
        → budget (visit_sitemap net web base disallowed max_depth max_pages c item) ≤ budget c
    unfolding visit_sitemap
    visit_sitemap-budget c item = elim (Option-cases (fetch_sitemap_locs net web item.url)) [
      | inl bad ↦ rw (bad, visit_sitemap) (omega arith)
      | inr (locs, good) ↦
          rw (good, visit_sitemap)
            (offer_all-budget (is_sitemap_url net) 0 c (located net base locs)
              (maps item.url locs good))
    ]

    follow-budget :
        (c : Crawl) (item : Item)
        → budget (follow net web base disallowed max_depth max_pages c item) ≤ budget c
    unfolding follow
    follow-budget c item = elim (Bool-cases (leb max_depth item.depth)) [
      | inl deep ↦ rw (deep, follow) (omega arith)
      | inr shallow ↦ elim (Option-cases (crawl_page net web item.url base)) [
        | inl bad ↦ rw (shallow, bad, follow) (omega arith)
        | inr (links, good) ↦
            rw (shallow, good, follow)
              (offer_all-budget (is_sitemap_url net) (item.depth + 1) c links
                (pages item.url links good))
      ]
    ]

    visit-budget :
        (c : Crawl) (item : Item)
        → budget (visit net web base disallowed max_depth max_pages c item) ≤ budget c
    unfolding visit visit_page budget
    visit-budget c item = elim (Bool-cases (is_disallowed net item.url disallowed)) [
      | inl banned ↦ rw (banned, visit) (omega arith)
      | inr allowed ↦ elim (Bool-cases item.sitemap) [
        | inl map ↦ rw (allowed, map, visit) (visit_sitemap-budget c item)
        | inr page ↦ elim (Bool-cases (is_html_url net item.url)) [
          | inr other ↦ rw (allowed, page, other, visit) (omega arith)
          | inl html ↦
              rw (allowed, page, html, visit)
                (follow-budget
                  (record c {
                    targets = c.targets ++ (default_target item.url (codes "http") (pos 1) ∷ []);
                  })
                  item)
        ]
      ]
    ]

    loop-done :
        (fuel : ℕ) (c : Crawl)
        → budget c ≤ fuel
        → (final : Crawl) × (loop net web base disallowed max_depth max_pages fuel c ≡ done final)
    unfolding loop budget
    loop-done zero c h = elim (List-cases c.queue) [
      | inl none_left ↦ (c, simp (none_left, loop))
      | inr (item, rest, queued) ↦ absurd (omega (arith, h, ap length queued))
    ]
    loop-done (suc fuel) c h = elim (List-cases c.queue) [
      | inl none_left ↦ (c, simp (none_left, loop))
      | inr (item, rest, queued) ↦ elim (Bool-cases (ltb (length c.targets) max_pages)) [
        | inr full ↦ (c, simp (queued, full, loop))
        | inl room ↦
            let next : Crawl =
              visit net web base disallowed max_depth max_pages (record c { queue = rest }) item in
            let ends =
              loop-done fuel next (
                omega
                  (arith, h, ap length queued, visit-budget (record c { queue = rest }) item)) in
            (ends.0, simp (queued, room, loop, ends.1))
      ]
    ]

    -- Where `reach` has each link that a page of the site offers, each location that a sitemap of the site offers and
    -- each sitemap of robots.txt, one round more than it has URLs is enough for the loop to end.
    pub loop_ends :
        (sitemaps : List Text)
        → All (λ u. one_of u reach ≡ true) (seeded net base sitemaps)
        → (final : Crawl) × (loop net web base disallowed max_depth max_pages
              (suc (length reach))
              (start net base sitemaps)
            ≡ done final)
    unfolding start budget
    loop_ends sitemaps h =
        let first : Crawl = record {
          visited = net.print base ∷ [];
          queue = record { url = net.print base; depth = 0; sitemap = false } ∷ [];
          targets = [];
        } in
        loop-done (suc (length reach)) (start net base sitemaps) (
          omega (
            arith,
            offer_all-budget (λ _. true) 0 first (seeded net base sitemaps) h,
            fresh≤length reach (net.print base ∷ []),
          ))
