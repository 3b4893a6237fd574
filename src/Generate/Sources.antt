-- ===== src/Generate/Sources.antt =====
-- cmd/sendit/generate.go: the sources of `generateCmd`, as it calls them. The crawl runs on fuel.
use sendit.Prelude.{ℕ, Bool, List, [], Option, none, some, Result, ok, err}
use sendit.Prelude.Int.{ℤ, pos_part}
use sendit.Prelude.Text.{Text}
use sendit.Config.Schema.{TargetConfig}
use sendit.Config.TargetsFile.{LoadError}
use sendit.Generate.Url.{Urls}
use sendit.Generate.Page.{Web}
use sendit.Generate.Targets.{targets_from_lines}
use sendit.Generate.Crawl.{CrawlError, done, out_of_fuel, targets_from_crawl}
use sendit.Generate.Browser.{System, BrowserError}
use sendit.Generate.Browser.Contents.{targets_from_history, targets_from_bookmarks}
use sendit.Generate.Command.{Sources}

pub data SourceError : Type 0 where
  not_opened unfinished : SourceError
  bad_lines : LoadError → SourceError
  bad_seed : CrawlError → SourceError
  bad_browser : BrowserError → SourceError

abbrev pub in_browser :
    Result BrowserError (List TargetConfig) → Result SourceError (List TargetConfig)
in_browser (err e) = err (bad_browser e)
in_browser (ok ts) = ok ts

-- `scan`: the lines of a file that can be opened, and whether the scanner then fails.
module _ (scan : Text → Option (List Text × Bool)) (net : Urls) (web : Web) (sys : System)
    (fuel : ℕ) where
  -- `targetsFromFile`.
  unfoldable pub targets_from_file : Text → Result SourceError (List TargetConfig)
  unfolding targets_from_lines
  targets_from_file path = elim (scan path) [
    | none ↦ err not_opened
    | some (lines, failed) ↦ elim (targets_from_lines failed 0 lines []) [
      | err e ↦ err (bad_lines e)
      | ok ts ↦ ok ts
    ]
  ]

  unfoldable pub crawled : Text → ℤ → ℤ → Bool → Result SourceError (List TargetConfig)
  unfolding targets_from_crawl
  crawled seed depth max_pages ignore_robots =
      elim (targets_from_crawl net web seed (pos_part depth) (pos_part max_pages) ignore_robots
        fuel) [
          | err e ↦ err (bad_seed e)
          | ok out_of_fuel ↦ err unfinished
          | ok (done c) ↦ ok c.targets
        ]

  unfoldable pub sources : Sources SourceError
  unfolding targets_from_file crawled targets_from_history targets_from_bookmarks
  sources = record {
    from_file = targets_from_file;
    from_crawl = crawled;
    from_history = λ browser limit. in_browser (targets_from_history sys browser limit);
    from_bookmarks = λ browser. in_browser (targets_from_bookmarks sys browser);
  }
