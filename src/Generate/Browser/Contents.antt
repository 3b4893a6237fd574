-- ===== src/Generate/Browser/Contents.antt =====
-- cmd/sendit/generate.go: the targets out of the history and the bookmarks of a browser.
use sendit.Prelude.{List, [], ◌∷◌, none, some, if◌then◌else◌, Result, ok, err}
use sendit.Prelude.Int.{ℤ}
use sendit.Prelude.Text.{Text, codes, text_eq, one_of, to_lower}
use sendit.Config.Schema.{TargetConfig}
use sendit.Generate.Targets.{
  targets_from_rows, targets_from_urls, walk_safari_nodes, walk_chrome_nodes,
}
use sendit.Generate.Browser.{
  BrowserError, no_database, database_failed, only_on_macos, unknown_browser, System, chrome_path,
  firefox_path, safari_path, history_db_info,
}

module _ (sys : System) where
  -- `historyFromSQLite`.
  unfoldable pub history_from_sqlite : Text → Text → ℤ → Result BrowserError (List TargetConfig)
  unfolding targets_from_rows
  history_from_sqlite db_path query limit =
      if sys.exists db_path
      then (elim (sys.visits db_path query limit) [
        | none ↦ err database_failed
        | some rows ↦ ok (targets_from_rows rows)
      ])
      else err no_database

  -- `targetsFromHistory`.
  unfoldable pub targets_from_history : Text → ℤ → Result BrowserError (List TargetConfig)
  unfolding history_db_info history_from_sqlite to_lower
  targets_from_history browser limit = elim (history_db_info sys (to_lower browser)) [
    | err e ↦ err e
    | ok info ↦ history_from_sqlite info.0 info.1 limit
  ]

  -- `firefoxBookmarks`.
  unfoldable pub firefox_bookmarks : Text → Result BrowserError (List TargetConfig)
  unfolding targets_from_urls
  firefox_bookmarks db_path =
      if sys.exists db_path
      then (elim (sys.urls db_path) [
        | none ↦ err database_failed
        | some rows ↦ ok (targets_from_urls rows)
      ])
      else err no_database

  -- `chromeBookmarks` and `safariBookmarks`.
  unfoldable pub chrome_bookmarks : Text → Result BrowserError (List TargetConfig)
  unfolding walk_chrome_nodes
  chrome_bookmarks path = elim (sys.bookmarks_json path) [
    | err e ↦ err e
    | ok roots ↦ ok (walk_chrome_nodes roots)
  ]

  unfoldable pub safari_bookmarks : Text → Result BrowserError (List TargetConfig)
  unfolding walk_safari_nodes
  safari_bookmarks path = elim (sys.bookmarks_plist path) [
    | err e ↦ err e
    | ok children ↦ ok (walk_safari_nodes children)
  ]

  -- `targetsFromBookmarks`.
  unfoldable pub targets_from_bookmarks : Text → Result BrowserError (List TargetConfig)
  unfolding chrome_path firefox_path chrome_bookmarks firefox_bookmarks safari_bookmarks one_of
      text_eq to_lower
  targets_from_bookmarks name =
      let browser = to_lower name in
      if one_of browser (codes "chrome" ∷ codes "chromium" ∷ [])
      then (elim (chrome_path sys (codes "Bookmarks")) [
        | err e ↦ err e
        | ok path ↦ chrome_bookmarks path
      ])
      else if text_eq browser (codes "firefox")
      then (elim (firefox_path sys (codes "places.sqlite")) [
        | err e ↦ err e
        | ok path ↦ firefox_bookmarks path
      ])
      else if text_eq browser (codes "safari")
      then (if text_eq sys.goos (codes "darwin")
          then safari_bookmarks
              (safari_path sys (elim sys.home [ none ↦ [] | some h ↦ h ]) (codes "Bookmarks.plist"))
          else err only_on_macos)
      else err unknown_browser
