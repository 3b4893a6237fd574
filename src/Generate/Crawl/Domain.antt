-- ===== src/Generate/Crawl/Domain.antt =====
-- cmd/sendit/generate.go: the hosts of what sitemaps and robots.txt give to `targetsFromCrawl`.
use sendit.Prelude.{refl, List, [], ◌∷◌, All, arith, Bool-cases, Option-cases, inl, inr, ◌&&◌}
use sendit.Prelude.Text.{Text, text_eq, text_eq_refl}
use sendit.Generate.Url.{Url, Urls, normalize_crawl_url}
use sendit.Generate.Page.Domain.{OnHost}
use sendit.Generate.Crawl.{seeded, located}

module _ (net : Urls) (base : Url) where
  pub located-OnHost : (locs : List Text) → All (OnHost net base) (located net base locs)
  unfolding located normalize_crawl_url
  located-OnHost [] = tt
  located-OnHost (loc ∷ locs) = elim (Option-cases (net.parse loc)) [
    | inl bad ↦ rw (bad, located) (located-OnHost locs)
    | inr (u, good) ↦ elim (Bool-cases (text_eq u.host base.host)) [
      | inl same ↦
          rw (good, same, located)
            (
              record {
                url = normalize_crawl_url (record u { scheme = base.scheme });
                printed = refl;
                same_scheme = text_eq_refl base.scheme;
                same_host = same;
              },
              located-OnHost locs,
            )
      | inr other ↦ rw (good, other, located) (located-OnHost locs)
    ]
  ]

  pub seeded-OnHost : (ss : List Text) → All (OnHost net base) (seeded net base ss)
  unfolding seeded normalize_crawl_url
  seeded-OnHost [] = tt
  seeded-OnHost (s ∷ ss) = elim (Option-cases (net.parse s)) [
    | inl bad ↦ rw (bad, seeded) (seeded-OnHost ss)
    | inr (u, good) ↦ elim (Bool-cases (text_eq u.scheme base.scheme && text_eq u.host base.host)) [
      | inl same ↦
          rw (good, same, seeded)
            (
              record {
                url = normalize_crawl_url u;
                printed = refl;
                same_scheme = ground (arith, same);
                same_host = ground (arith, same);
              },
              seeded-OnHost ss,
            )
      | inr other ↦ rw (good, other, seeded) (seeded-OnHost ss)
    ]
  ]
