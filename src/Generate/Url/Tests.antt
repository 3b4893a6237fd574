-- ===== src/Generate/Url/Tests.antt =====
-- Runs of `normalizeCrawlURL`, `isHTMLURL` and `isSitemapURL`.
use sendit.Prelude.{◌≡◌, refl, true, false, []}
use sendit.Prelude.Text.{codes}
use sendit.Generate.Url.{Url, normalize_path, is_html_path, is_sitemap_path}

abbrev blog : Url
blog = record {
  scheme = codes "https";
  host = codes "a.b";
  path = codes "/blog//";
  raw_query = codes "q=1";
  fragment = codes "top";
  others = [];
}

-- A path of two slashes becomes empty, and only then the root.
two_slashes : normalize_path (codes "//") ≡ []
unfolding normalize_path
two_slashes = refl

picture : is_html_path (codes "/a.d/b.PNG") ≡ false
unfolding is_html_path
picture = refl

page : is_html_path (codes "/a.png/b") ≡ true
unfolding is_html_path
page = refl

sitemap : is_sitemap_path (codes "/maps/Sitemap-1.xml") ≡ true
unfolding is_sitemap_path
sitemap = refl
