-- ===== src/Generate/Command/Tests.antt =====
-- cmd/sendit/generate.go: runs of `sendit generate` with sources that are given.
use sendit.Prelude.{◌≡◌, refl, Bool, true, false, List, [], ◌∷◌, ok, err}
use sendit.Prelude.Int.{pos}
use sendit.Prelude.Text.{Text, codes}
use sendit.Config.Schema.{TargetConfig}
use sendit.Generate.Targets.{default_target}
use sendit.Generate.Command.{Flags, crawl_without_url, in_bookmarks, no_source, Sources, generate}
use sendit.Generate.Command.Listed.{FromSources, Listed, generate-Listed}

abbrev page : TargetConfig
page = default_target (codes "http://a") (codes "http") (pos 1)

-- A file and a history that know one page, and no bookmarks.
abbrev sources : Sources Text
sources = record {
  from_file = λ path. ok (page ∷ []);
  from_crawl = λ seed depth pages ignore. ok [];
  from_history = λ browser limit. ok (page ∷ []);
  from_bookmarks = λ browser. err browser;
}

abbrev flags : Text → Text → Text → Bool → Flags
flags file history bookmarks crawl = record {
  targets_file = file;
  seed_url = [];
  crawl = crawl;
  depth = pos 2;
  max_pages = pos 50;
  ignore_robots = false;
  from_history = history;
  from_bookmarks = bookmarks;
  history_limit = pos 100;
}

generate-Listed_example :
    (all : List TargetConfig) × FromSources sources
      (flags (codes "t.txt") (codes "chrome") [] false)
      all
    × Listed all (page ∷ [])
unfolding generate default_target
generate-Listed_example =
    generate-Listed sources (flags (codes "t.txt") (codes "chrome") [] false) (page ∷ []) refl

no_seed : generate sources (flags [] [] [] true) ≡ err crawl_without_url
unfolding generate
no_seed = refl

nothing_asked : generate sources (flags [] [] [] false) ≡ err no_source
unfolding generate
nothing_asked = refl

no_bookmarks :
    generate sources (flags (codes "t.txt") [] (codes "opera") false)
    ≡ err (in_bookmarks (codes "opera"))
unfolding generate
no_bookmarks = refl
