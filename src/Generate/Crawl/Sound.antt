-- ===== src/Generate/Crawl/Sound.antt =====
-- cmd/sendit/generate.go: what `targetsFromCrawl` returns.
use sendit.Prelude.{
  ℕ, zero, suc, ◌+◌, ◌≤◌, ◌<◌, ◌≡◌, refl, sym, ap, subst, Bool, true, false, List, [], ◌∷◌, ◌++◌,
  ltb, leb, length, length-append, All, All-append, arith, Bool-cases, Option-cases, inl, inr,
  All-at, List-cases,
}
use sendit.Prelude.Int.{pos}
use sendit.Prelude.Text.{Text, codes, text_eq_refl, one_of}
use sendit.Prelude.Distinct.{IsDistinct, IsDistinct-front}
use sendit.Engine.Reload.{urls}
use sendit.Generate.Url.{Url, Urls, is_html_url, is_sitemap_url, is_disallowed}
use sendit.Generate.Page.{Web, crawl_page, fetch_sitemap_locs}
use sendit.Generate.Page.Domain.{OnHost, crawl_page-OnHost}
use sendit.Generate.Targets.{default_target}
use sendit.Generate.Crawl.{
  Item, Crawl, offer_all, done, seeded, located, visit_sitemap, visit_page, follow, visit, loop,
  start,
}
use sendit.Generate.Crawl.Domain.{located-OnHost, seeded-OnHost}
use sendit.Generate.Crawl.Kept.{
  item_urls, Kept, urls-append, offer_all-Kept, offer_all-targets, pop-Kept, take-Kept,
}

pub done-inj : {c d : Crawl} → done c ≡ done d → c ≡ d
done-inj e = cc e

module _ (net : Urls) (web : Web) (base : Url) (disallowed : List Text)
    (max_depth max_pages : ℕ) where
  -- What the crawl may return as a target.
  pub record IsCrawlable (raw : Text) : Type 0 where
    pub on_host : OnHost net base raw
    pub allowed : is_disallowed net raw disallowed ≡ false
    pub html : is_html_url net raw ≡ true

  record Sound (c : Crawl) : Type 0 where
    kept : Kept (OnHost net base) c
    crawlable : All IsCrawlable (urls c.targets)
    few : length c.targets ≤ max_pages

  offered-Sound :
      (is_sitemap : Text → Bool) (depth : ℕ) (c : Crawl) (us : List Text)
      → All (OnHost net base) us
      → Sound c
      → Sound (offer_all is_sitemap depth c us)
  offered-Sound is_sitemap depth c us h s =
      let same : (offer_all is_sitemap depth c us).targets ≡ c.targets =
        offer_all-targets is_sitemap depth c us in
      record {
        kept = offer_all-Kept (OnHost net base) is_sitemap depth c us h s.kept;
        crawlable = subst (λ ts. All IsCrawlable (urls ts)) (sym same) s.crawlable;
        few = subst (λ ts. length ts ≤ max_pages) (sym same) s.few;
      }

  visit_sitemap-Sound :
      (c : Crawl) (item : Item)
      → Sound c
      → Sound (visit_sitemap net web base disallowed max_depth max_pages c item)
  unfolding visit_sitemap
  visit_sitemap-Sound c item s = elim (Option-cases (fetch_sitemap_locs net web item.url)) [
    | inl bad ↦ rw (bad, visit_sitemap) s
    | inr (locs, good) ↦
        rw (good, visit_sitemap)
          (offered-Sound (is_sitemap_url net) 0 c (located net base locs)
            (located-OnHost net base locs) s)
  ]

  follow-Sound :
      (c : Crawl) (item : Item)
      → Sound c
      → Sound (follow net web base disallowed max_depth max_pages c item)
  unfolding follow
  follow-Sound c item s = elim (Bool-cases (leb max_depth item.depth)) [
    | inl deep ↦ rw (deep, follow) s
    | inr shallow ↦ elim (Option-cases (crawl_page net web item.url base)) [
      | inl bad ↦ rw (shallow, bad, follow) s
      | inr (links, good) ↦
          rw (shallow, good, follow)
            (offered-Sound (is_sitemap_url net) (item.depth + 1) c links
              (crawl_page-OnHost net base web item.url links good) s)
    ]
  ]

  next :
      (c : Crawl) (item : Item) (rest : List Item)
      → c.queue ≡ item ∷ rest
      → Sound c
      → OnHost net base item.url
  next c item rest e s =
      All-at (OnHost net base) (urls c.targets) item.url (item_urls rest)
        (subst (All (OnHost net base)) (ap (λ q. urls c.targets ++ item_urls q) e) s.kept.each)

  -- The round on the first element of the queue.
  visit-Sound :
      (c : Crawl) (item : Item) (rest : List Item)
      → c.queue ≡ item ∷ rest
      → length c.targets < max_pages
      → Sound c
      → Sound (visit net web base disallowed max_depth max_pages (record c { queue = rest }) item)
  unfolding visit visit_page default_target
  visit-Sound c item rest e room s =
      let popped : Sound (record c { queue = rest }) = record {
        kept = pop-Kept (OnHost net base) c item rest e s.kept;
        crawlable = s.crawlable;
        few = s.few;
      } in
      elim (Bool-cases (is_disallowed net item.url disallowed)) [
        | inl banned ↦ rw (banned, visit) popped
        | inr allowed ↦ elim (Bool-cases item.sitemap) [
          | inl map ↦
              rw (allowed, map, visit) (visit_sitemap-Sound (record c { queue = rest }) item popped)
          | inr page ↦ elim (Bool-cases (is_html_url net item.url)) [
            | inr other ↦ rw (allowed, page, other, visit) popped
            | inl html ↦
                rw (allowed, page, html, visit)
                  (follow-Sound _ item (record {
                    kept = take-Kept (OnHost net base) c item rest e s.kept;
                    crawlable =
                        subst (All IsCrawlable)
                          (sym (
                            urls-append c.targets
                              (default_target item.url (codes "http") (pos 1) ∷ [])))
                          (All-append IsCrawlable (urls c.targets) (item.url ∷ []) s.crawlable (
                            record {
                              on_host = next c item rest e s;
                              allowed = allowed;
                              html = html;
                            },
                            tt,
                          ));
                    few = omega (
                      arith,
                      room,
                      length-append c.targets (default_target item.url (codes "http") (pos 1) ∷ []),
                    );
                  }))
          ]
        ]
      ]

  loop-Sound :
      (fuel : ℕ) (c final : Crawl)
      → Sound c
      → loop net web base disallowed max_depth max_pages fuel c ≡ done final
      → Sound final
  unfolding loop
  loop-Sound zero c final s e = elim (List-cases c.queue) [
    | inl none_left ↦ subst Sound (done-inj (rw (none_left, loop) at e)) s
    | inr (item, rest, queued) ↦ elim (Bool-cases (ltb (length c.targets) max_pages)) [
      | inl room ↦ absurd (cc (rw (queued, room, loop) at e))
      | inr full ↦ subst Sound (done-inj (rw (queued, full, loop) at e)) s
    ]
  ]
  loop-Sound (suc fuel) c final s e = elim (List-cases c.queue) [
    | inl none_left ↦ subst Sound (done-inj (rw (none_left, loop) at e)) s
    | inr (item, rest, queued) ↦ elim (Bool-cases (ltb (length c.targets) max_pages)) [
      | inl room ↦
          loop-Sound fuel _ final (visit-Sound c item rest queued (ground (arith, room)) s)
            (rw (queued, room, loop) at e)
      | inr full ↦ subst Sound (done-inj (rw (queued, full, loop) at e)) s
    ]
  ]

  start-Sound : (sitemaps : List Text) → Sound (start net base sitemaps)
  unfolding start one_of
  start-Sound sitemaps =
      offered-Sound (λ _. true) 0 _ (seeded net base sitemaps) (seeded-OnHost net base sitemaps)
        (record {
          kept = record {
            distinct = (refl, tt);
            marked = (ground (arith, text_eq_refl (net.print base)), tt);
            each = (
              record {
                url = base;
                printed = refl;
                same_scheme = text_eq_refl base.scheme;
                same_host = text_eq_refl base.host;
              },
              tt,
            );
          };
          crawlable = tt;
          few = omega arith;
        })

  -- The crawl from a seed in normal form, with the disallowed prefixes and the sitemaps of robots.txt: when the
  -- loop ends, it has at most `max_pages` targets, no two with the same URL, and each URL is on the host of the
  -- seed, has no disallowed prefix and is not of a type that is no HTML.
  pub loop-IsCrawlable :
      (sitemaps : List Text) (fuel : ℕ) (final : Crawl)
      → loop net web base disallowed max_depth max_pages fuel (start net base sitemaps) ≡ done final
      → All IsCrawlable (urls final.targets)
        × IsDistinct (urls final.targets)
        × (length final.targets ≤ max_pages)
  loop-IsCrawlable sitemaps fuel final e =
      let s : Sound final =
        loop-Sound fuel (start net base sitemaps) final (start-Sound sitemaps) e in
      (
        s.crawlable,
        IsDistinct-front (urls final.targets) (item_urls final.queue) s.kept.distinct,
        s.few,
      )
