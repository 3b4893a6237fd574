-- ===== src/Generate/Crawl/Typical.antt =====
-- cmd/sendit/generate.go: the settings of the targets that `targetsFromCrawl` returns.
use sendit.Prelude.{
  ℕ, zero, suc, ◌+◌, ◌≡◌, refl, sym, subst, Bool, true, List, [], ◌∷◌, ◌++◌, ltb, leb, length,
  if◌then◌else◌, All, All-append, Result, ok, Bool-cases, Option-cases, List-cases, inl, inr,
}
use sendit.Prelude.Int.{pos}
use sendit.Prelude.Text.{Text, codes, one_of}
use sendit.Config.Schema.{TargetConfig}
use sendit.Generate.Url.{Url, Urls, normalize_crawl_url, is_html_url, is_sitemap_url, is_disallowed}
use sendit.Generate.Page.{Web, crawl_page, fetch_sitemap_locs, fetch_robots_info}
use sendit.Generate.Targets.{default_target}
use sendit.Generate.Crawl.{
  Item, Crawl, CrawlError, Outcome, done, located, visit_sitemap, visit_page, follow, visit, loop,
  start, seeded, targets_from_crawl,
}
use sendit.Generate.Crawl.Kept.{offer_all-targets}
use sendit.Generate.Crawl.Sound.{done-inj}

-- A target with the default settings, of the type http and of weight 1.
abbrev pub IsTypical : TargetConfig → Type 0
IsTypical t = t ≡ default_target t.url (codes "http") (pos 1)

default_target-IsTypical : (url : Text) → IsTypical (default_target url (codes "http") (pos 1))
unfolding default_target
default_target-IsTypical url = refl

same_targets : {ts us : List TargetConfig} → us ≡ ts → All IsTypical ts → All IsTypical us
same_targets e h = subst (All IsTypical) (sym e) h

module _ (net : Urls) (web : Web) where
  module _ (base : Url) (disallowed : List Text) (max_depth max_pages : ℕ) where
    visit_sitemap-targets :
        (c : Crawl) (item : Item)
        → (visit_sitemap net web base disallowed max_depth max_pages c item).targets ≡ c.targets
    unfolding visit_sitemap
    visit_sitemap-targets c item = elim (Option-cases (fetch_sitemap_locs net web item.url)) [
      | inl bad ↦ rw (bad, visit_sitemap) refl
      | inr (locs, good) ↦
          rw (good, visit_sitemap)
            (offer_all-targets (is_sitemap_url net) 0 c (located net base locs))
    ]

    follow-targets :
        (c : Crawl) (item : Item)
        → (follow net web base disallowed max_depth max_pages c item).targets ≡ c.targets
    unfolding follow
    follow-targets c item = elim (Bool-cases (leb max_depth item.depth)) [
      | inl deep ↦ rw (deep, follow) refl
      | inr shallow ↦ elim (Option-cases (crawl_page net web item.url base)) [
        | inl bad ↦ rw (shallow, bad, follow) refl
        | inr (links, good) ↦
            rw (shallow, good, follow)
              (offer_all-targets (is_sitemap_url net) (item.depth + 1) c links)
      ]
    ]

    visit-IsTypical :
        (c : Crawl) (item : Item)
        → All IsTypical c.targets
        → All IsTypical (visit net web base disallowed max_depth max_pages c item).targets
    unfolding visit visit_page
    visit-IsTypical c item h = elim (Bool-cases (is_disallowed net item.url disallowed)) [
      | inl banned ↦ rw (banned, visit) h
      | inr allowed ↦ elim (Bool-cases item.sitemap) [
        | inl map ↦ rw (allowed, map, visit) (same_targets (visit_sitemap-targets c item) h)
        | inr page ↦ elim (Bool-cases (is_html_url net item.url)) [
          | inr other ↦ rw (allowed, page, other, visit) h
          | inl html ↦
              let c' : Crawl = record c {
                targets = c.targets ++ (default_target item.url (codes "http") (pos 1) ∷ []);
              } in
              rw (allowed, page, html, visit)
                (same_targets (follow-targets c' item)
                  (All-append IsTypical c.targets _ h (default_target-IsTypical item.url, tt)))
        ]
      ]
    ]

    loop-IsTypical :
        (fuel : ℕ) (c final : Crawl)
        → All IsTypical c.targets
        → loop net web base disallowed max_depth max_pages fuel c ≡ done final
        → All IsTypical final.targets
    unfolding loop
    loop-IsTypical zero c final h e = elim (List-cases c.queue) [
      | inl none_left ↦
          subst (λ d. All IsTypical d.targets) (done-inj (rw (none_left, loop) at e)) h
      | inr (item, rest, queued) ↦ elim (Bool-cases (ltb (length c.targets) max_pages)) [
        | inl room ↦ absurd (cc (rw (queued, room, loop) at e))
        | inr full ↦
            subst (λ d. All IsTypical d.targets) (done-inj (rw (queued, full, loop) at e)) h
      ]
    ]
    loop-IsTypical (suc fuel) c final h e = elim (List-cases c.queue) [
      | inl none_left ↦
          subst (λ d. All IsTypical d.targets) (done-inj (rw (none_left, loop) at e)) h
      | inr (item, rest, queued) ↦ elim (Bool-cases (ltb (length c.targets) max_pages)) [
        | inl room ↦
            loop-IsTypical fuel _ final (visit-IsTypical (record c { queue = rest }) item h)
              (rw (queued, room, loop) at e)
        | inr full ↦
            subst (λ d. All IsTypical d.targets) (done-inj (rw (queued, full, loop) at e)) h
      ]
    ]

  ok-done-inj : {r : Result CrawlError Outcome} {a b : Outcome} → r ≡ ok a → r ≡ ok b → a ≡ b
  ok-done-inj e f = cc (e, f)

  pub targets_from_crawl-IsTypical :
      (seed : Text) (max_depth max_pages : ℕ) (ignore_robots : Bool) (fuel : ℕ) (final : Crawl)
      → targets_from_crawl net web seed max_depth max_pages ignore_robots fuel ≡ ok (done final)
      → All IsTypical final.targets
  unfolding targets_from_crawl start
  targets_from_crawl-IsTypical seed max_depth max_pages ignore_robots fuel final e =
      elim (Option-cases (net.parse seed)) [
        | inl bad ↦ absurd (cc (rw (bad, targets_from_crawl) at e))
        | inr (u, good) ↦ elim (Bool-cases (one_of u.scheme (codes "http" ∷ codes "https" ∷ []))) [
          | inr other ↦ absurd (cc (rw (good, other, targets_from_crawl) at e))
          | inl web_scheme ↦
              let base = normalize_crawl_url u in
              let info : List Text × List Text =
                if ignore_robots then ([], []) else fetch_robots_info net web base in
              loop-IsTypical base info.0 max_depth max_pages fuel (start net base info.1) final
                (subst (All IsTypical)
                  (sym (offer_all-targets (λ _. true) 0 _ (seeded net base info.1))) tt)
                (ok-done-inj refl (rw (good, web_scheme, targets_from_crawl) at e))
        ]
      ]
