-- ===== src/Generate/Browser.antt =====
-- cmd/sendit/generate.go: where a browser keeps its history and its bookmarks.
-- The system, its files, the databases, the parsers of JSON and of property lists, and path/filepath are parameters.
pub mod Contents
mod Tests
use sendit.Prelude.{
  Bool, true, false, not, ◌&&◌, ◌||◌, List, [], ◌∷◌, ◌++◌, Option, none, some, if◌then◌else◌,
  Result, ok, err,
}
use sendit.Prelude.Int.{ℤ}
use sendit.Prelude.Text.{Text, codes, text_eq, has_prefix, contains, one_of, trim_space, to_lower}
use sendit.Prelude.{drop, length}
use sendit.Config.Schema.{TargetConfig}
use sendit.Config.Validate.{is_empty}
use sendit.Generate.Targets.{
  targets_from_rows, targets_from_urls, SafariNodes, walk_safari_nodes, ChromeNodes,
  walk_chrome_nodes,
}

pub data BrowserError : Type 0 where
  no_home unsupported_os only_on_macos unknown_browser no_profile : BrowserError
  no_database database_failed unreadable unparsable : BrowserError

-- `home` is `os.UserHomeDir`, `goos` is runtime.GOOS; `lines` are those of a file that can be opened, `entries` those
-- of a directory, with whether they are directories; the queries give a row for each that is there, or none where
-- it cannot be scanned.
pub record System : Type 0 where
  pub goos : Text
  pub home : Option Text
  pub join : List Text → Text
  pub dir : Text → Text
  pub is_abs : Text → Bool
  pub exists : Text → Bool
  pub lines : Text → Option (List Text)
  pub entries : Text → Option (List (Text × Bool))
  pub visits : Text → Text → ℤ → Option (List (Option (Text × ℤ)))
  pub urls : Text → Option (List (Option Text))
  pub bookmarks_json : Text → Result BrowserError ChromeNodes
  pub bookmarks_plist : Text → Result BrowserError SafariNodes

-- The loop over the lines of profiles.ini, with `inWildcard` and `path`: the path of the default profile.
unfoldable pub default_path : Bool → Text → List Text → Option Text
unfolding trim_space has_prefix is_empty
default_path in_wildcard path [] = none
default_path in_wildcard path (raw ∷ lines) =
    let line = trim_space raw in
    let after : Bool × Text =
      if has_prefix line (codes "[Profile")
      then (false, [])
      else if has_prefix line (codes "Default=1")
      then (true, path)
      else if has_prefix line (codes "Path=")
      then (in_wildcard, drop (length (codes "Path=")) line)
      else (in_wildcard, path) in
    elim (after.0 && not (is_empty after.1)) [
      | true ↦ some after.1
      | false ↦ default_path after.0 after.1 lines
    ]

-- The loop of `firefoxFallbackProfile`.
unfoldable pub first_default : List (Text × Bool) → Option Text
unfolding contains
first_default [] = none
first_default (e ∷ es) =
    if e.1 && contains e.0 (codes "default") then some e.0 else first_default es

module _ (sys : System) where
  -- `chromePath`.
  unfoldable pub chrome_path : Text → Result BrowserError Text
  unfolding text_eq
  chrome_path filename = elim sys.home [
    | none ↦ err no_home
    | some home ↦
        if text_eq sys.goos (codes "linux")
        then ok (
            sys.join (
              sys.join (home ∷ codes ".config" ∷ codes "google-chrome" ∷ codes "Default" ∷ [])
              ∷ filename
              ∷ []))
        else if text_eq sys.goos (codes "darwin")
        then ok (
            sys.join (
              sys.join (
                home
                ∷ codes "Library"
                ∷ codes "Application Support"
                ∷ codes "Google"
                ∷ codes "Chrome"
                ∷ codes "Default"
                ∷ [])
              ∷ filename
              ∷ []))
        else err unsupported_os
  ]

  -- `firefoxFallbackProfile`.
  unfoldable pub firefox_fallback_profile : Text → Result BrowserError Text
  unfolding first_default
  firefox_fallback_profile config_dir = elim (sys.entries config_dir) [
    | none ↦ err no_profile
    | some es ↦ elim (first_default es) [
      | none ↦ err no_profile
      | some name ↦ ok (sys.join (config_dir ∷ name ∷ []))
    ]
  ]

  -- `firefoxDefaultProfile`.
  unfoldable pub firefox_default_profile : Text → Result BrowserError Text
  unfolding default_path firefox_fallback_profile text_eq
  firefox_default_profile config_dir =
      let ini_path : Text =
        if text_eq sys.goos (codes "darwin")
        then sys.join (sys.dir config_dir ∷ codes "profiles.ini" ∷ [])
        else sys.join (config_dir ∷ codes "profiles.ini" ∷ []) in
      let fallback = firefox_fallback_profile config_dir in
      elim (sys.lines ini_path) [
        | none ↦ fallback
        | some ls ↦ elim (default_path false [] ls) [
          | none ↦ fallback
          | some path ↦ if sys.is_abs path then ok path else ok (sys.join (config_dir ∷ path ∷ []))
        ]
      ]

  -- `firefoxPath`.
  unfoldable pub firefox_path : Text → Result BrowserError Text
  unfolding firefox_default_profile text_eq
  firefox_path filename = elim sys.home [
    | none ↦ err no_home
    | some home ↦
        let config_dir : Option Text =
          if text_eq sys.goos (codes "linux")
          then some (sys.join (home ∷ codes ".mozilla" ∷ codes "firefox" ∷ []))
          else if text_eq sys.goos (codes "darwin")
          then some (
              sys.join (
                home
                ∷ codes "Library"
                ∷ codes "Application Support"
                ∷ codes "Firefox"
                ∷ codes "Profiles"
                ∷ []))
          else none in
        elim config_dir [
          | none ↦ err unsupported_os
          | some dir ↦ elim (firefox_default_profile dir) [
            | err e ↦ err e
            | ok profile ↦ ok (sys.join (profile ∷ filename ∷ []))
          ]
        ]
  ]

  abbrev pub safari_path : Text → Text → Text
  safari_path home file = sys.join (home ∷ codes "Library" ∷ codes "Safari" ∷ file ∷ [])

  -- `historyDBInfo`: the path, and the query.
  unfoldable pub history_db_info : Text → Result BrowserError (Text × Text)
  unfolding chrome_path firefox_path one_of text_eq
  history_db_info browser =
      if one_of browser (codes "chrome" ∷ codes "chromium" ∷ [])
      then (elim (chrome_path (codes "History")) [
        | err e ↦ err e
        | ok path ↦ ok (
          path,
          codes
              "SELECT url, visit_count FROM urls WHERE url LIKE 'http%' ORDER BY visit_count DESC LIMIT ?",
        )
      ])
      else if text_eq browser (codes "firefox")
      then (elim (firefox_path (codes "places.sqlite")) [
        | err e ↦ err e
        | ok path ↦ ok (
          path,
          codes
              "SELECT url, visit_count FROM moz_places WHERE visit_count > 0 AND url LIKE 'http%' ORDER BY visit_count DESC LIMIT ?",
        )
      ])
      else if text_eq browser (codes "safari")
      then (if text_eq sys.goos (codes "darwin")
          then ok (
            safari_path (elim sys.home [ none ↦ [] | some h ↦ h ]) (codes "History.db"),
            codes
                "SELECT url, visit_count FROM history_items WHERE url LIKE 'http%' ORDER BY visit_count DESC LIMIT ?",
          )
          else err only_on_macos)
      else err unknown_browser
