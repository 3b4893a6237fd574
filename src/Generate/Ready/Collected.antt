-- ===== src/Generate/Ready/Collected.antt =====
-- cmd/sendit/generate.go: the targets that the sources of `generate` return.
use sendit.Prelude.{
  ℕ, ◌≡◌, refl, subst, sym, Bool, true, List, [], ◌∷◌, Option, some, Result, ok, err, All,
  Bool-cases, Option-cases, Result-cases, inl, inr,
}
use sendit.Prelude.Int.{ℤ, pos, pos_part}
use sendit.Prelude.Text.{Text, codes, text_eq, text_eq_iff, one_of, to_lower}
use sendit.Config.Schema.{TargetConfig}
use sendit.Config.Validate.{is_empty, validate}
use sendit.Config.Load.{set_defaults}
use sendit.Generate.Url.{Url, Urls, normalize_crawl_url}
use sendit.Generate.Page.{Web}
use sendit.Generate.Page.Domain.{OnHost}
use sendit.Generate.Targets.{targets_from_lines}
use sendit.Engine.Reload.{urls}
use sendit.Generate.Crawl.{done, out_of_fuel, targets_from_crawl}
use sendit.Generate.Crawl.Sound.{IsCrawlable}
use sendit.Generate.Crawl.Returned.{targets_from_crawl-IsCrawlable}
use sendit.Generate.Crawl.Typical.{IsTypical, targets_from_crawl-IsTypical}
use sendit.Generate.Browser.{System, BrowserError, history_db_info, chrome_path, firefox_path}
use sendit.Generate.Browser.Contents.{
  history_from_sqlite, targets_from_history, chrome_bookmarks, firefox_bookmarks, safari_bookmarks,
  targets_from_bookmarks,
}
use sendit.Generate.Emit.{format_config}
use sendit.Generate.Emit.Written.{Row, listed}
use sendit.Generate.Ready.Read.{read_back, validate-read_back}
use sendit.Generate.Command.{Flags, generate}
use sendit.Generate.Sources.{in_browser, targets_from_file, crawled, sources}
use sendit.Generate.Ready.{
  IsFine, IsFilled, IsRow, IsUrlRow, default_target-IsFine, targets_from_lines-IsFine,
  targets_from_rows-IsFine, targets_from_urls-IsFine, walk_safari_nodes-IsFine,
  walk_chrome_nodes-IsFine,
}
use sendit.Generate.Ready.Printed.{Gives, AreFine, generate-AllFine}

in_browser-Gives : (r : Result BrowserError (List TargetConfig)) → Gives r → Gives (in_browser r)
in_browser-Gives (err e) h = tt
in_browser-Gives (ok ts) h = h

module _ (sys : System)
    (rows : (db query : Text) (limit : ℤ) (rs : List (Option (Text × ℤ)))
      → sys.visits db query limit ≡ some rs
      → All IsRow rs)
    (url_rows : (db : Text) (rs : List (Option Text))
      → sys.urls db ≡ some rs
      → All IsUrlRow rs) where
  history_from_sqlite-Gives :
      (db query : Text) (limit : ℤ) → Gives (history_from_sqlite sys db query limit)
  unfolding history_from_sqlite
  history_from_sqlite-Gives db query limit = elim (Bool-cases (sys.exists db)) [
    | inr missing ↦ simp (missing, history_from_sqlite) tt
    | inl there ↦ elim (Option-cases (sys.visits db query limit)) [
      | inl failed ↦ simp (there, failed, history_from_sqlite) tt
      | inr (rs, found) ↦
          simp (there, found, history_from_sqlite)
            (targets_from_rows-IsFine rs (rows db query limit rs found))
    ]
  ]

  targets_from_history-Gives :
      (browser : Text) (limit : ℤ) → Gives (targets_from_history sys browser limit)
  unfolding targets_from_history
  targets_from_history-Gives browser limit =
      elim (Result-cases (history_db_info sys (to_lower browser))) [
        | inl (why, bad) ↦ rw (bad, targets_from_history) tt
        | inr ((db, query), good) ↦
            rw (good, targets_from_history) (history_from_sqlite-Gives db query limit)
      ]

  firefox_bookmarks-Gives : (db : Text) → Gives (firefox_bookmarks sys db)
  unfolding firefox_bookmarks
  firefox_bookmarks-Gives db = elim (Bool-cases (sys.exists db)) [
    | inr missing ↦ simp (missing, firefox_bookmarks) tt
    | inl there ↦ elim (Option-cases (sys.urls db)) [
      | inl failed ↦ simp (there, failed, firefox_bookmarks) tt
      | inr (rs, found) ↦
          simp (there, found, firefox_bookmarks)
            (targets_from_urls-IsFine rs (url_rows db rs found))
    ]
  ]

  chrome_bookmarks-Gives : (path : Text) → Gives (chrome_bookmarks sys path)
  unfolding chrome_bookmarks
  chrome_bookmarks-Gives path = elim (Result-cases (sys.bookmarks_json path)) [
    | inl (why, bad) ↦ rw (bad, chrome_bookmarks) tt
    | inr (roots, good) ↦ rw (good, chrome_bookmarks) (walk_chrome_nodes-IsFine roots)
  ]

  safari_bookmarks-Gives : (path : Text) → Gives (safari_bookmarks sys path)
  unfolding safari_bookmarks
  safari_bookmarks-Gives path = elim (Result-cases (sys.bookmarks_plist path)) [
    | inl (why, bad) ↦ rw (bad, safari_bookmarks) tt
    | inr (nodes, good) ↦ rw (good, safari_bookmarks) (walk_safari_nodes-IsFine nodes)
  ]

  targets_from_bookmarks-Gives : (name : Text) → Gives (targets_from_bookmarks sys name)
  unfolding targets_from_bookmarks
  targets_from_bookmarks-Gives name =
      elim (Bool-cases (one_of (to_lower name) (codes "chrome" ∷ codes "chromium" ∷ []))) [
        | inl chrome ↦ elim (Result-cases (chrome_path sys (codes "Bookmarks"))) [
          | inl (why, bad) ↦ simp (chrome, bad, targets_from_bookmarks) tt
          | inr (path, good) ↦
              simp (chrome, good, targets_from_bookmarks) (chrome_bookmarks-Gives path)
        ]
        | inr no_chrome ↦ elim (Bool-cases (text_eq (to_lower name) (codes "firefox"))) [
          | inl firefox ↦ elim (Result-cases (firefox_path sys (codes "places.sqlite"))) [
            | inl (why, bad) ↦ simp (no_chrome, firefox, bad, targets_from_bookmarks) tt
            | inr (path, good) ↦
                simp (no_chrome, firefox, good, targets_from_bookmarks)
                  (firefox_bookmarks-Gives path)
          ]
          | inr no_firefox ↦ elim (Bool-cases (text_eq (to_lower name) (codes "safari"))) [
            | inr unknown ↦ simp (no_chrome, no_firefox, unknown, targets_from_bookmarks) tt
            | inl safari ↦ elim (Bool-cases (text_eq sys.goos (codes "darwin"))) [
              | inr elsewhere ↦
                  simp (no_chrome, no_firefox, safari, elsewhere, targets_from_bookmarks) tt
              | inl darwin ↦
                  simp (no_chrome, no_firefox, safari, darwin, targets_from_bookmarks)
                    (safari_bookmarks-Gives _)
            ]
          ]
        ]
      ]

targets_from_file-Gives :
    (scan : Text → Option (List Text × Bool)) (net : Urls) (web : Web) (sys : System) (fuel : ℕ)
    (path : Text)
    → Gives (targets_from_file scan net web sys fuel path)
unfolding targets_from_file
targets_from_file-Gives scan net web sys fuel path = elim (Option-cases (scan path)) [
  | inl unopened ↦ rw (unopened, targets_from_file) tt
  | inr ((lines, failed), opened) ↦ elim (Result-cases (targets_from_lines failed 0 lines [])) [
    | inl (why, bad) ↦ rw (opened, bad, targets_from_file) tt
    | inr (ts, good) ↦
        rw (opened, good, targets_from_file)
          (targets_from_lines-IsFine failed 0 lines [] ts tt good)
  ]
]

web_scheme-IsFilled : (s : Text) → one_of s (codes "http" ∷ codes "https" ∷ []) ≡ true → IsFilled s
unfolding one_of text_eq is_empty
web_scheme-IsFilled [] h = cc h
web_scheme-IsFilled (c ∷ s) h = refl

module _ (net : Urls) (web : Web)
    (prints : (u : Url) → IsFilled u.scheme → IsFilled (net.print u)) where
  OnHost-IsFilled :
      (base : Url) (raw : Text) → IsFilled base.scheme → OnHost net base raw → IsFilled raw
  OnHost-IsFilled base raw filled h = subst IsFilled (sym h.printed) (
      prints h.url
        (subst IsFilled (sym ((text_eq_iff h.url.scheme base.scheme).0 h.same_scheme)) filled))

  all-IsFine :
      (base : Url) (disallowed : List Text) (d p : ℕ) (ts : List TargetConfig)
      → IsFilled base.scheme
      → All (IsCrawlable net web base disallowed d p) (urls ts)
      → All IsTypical ts
      → All IsFine ts
  unfolding one_of
  all-IsFine base disallowed d p [] filled h k = tt
  all-IsFine base disallowed d p (t ∷ ts) filled h k = (
    subst IsFine (sym k.0) (
        default_target-IsFine t.url (codes "http") (pos 1)
          (OnHost-IsFilled base t.url filled h.0.on_host) refl refl),
    all-IsFine base disallowed d p ts filled h.1 k.1,
  )

  crawled-Gives :
      (scan : Text → Option (List Text × Bool)) (sys : System) (fuel : ℕ) (seed : Text) (d p : ℤ)
      (ignore : Bool)
      → Gives (crawled scan net web sys fuel seed d p ignore)
  unfolding crawled
  crawled-Gives scan sys fuel seed d p ignore =
      elim (Result-cases (targets_from_crawl net web seed (pos_part d) (pos_part p) ignore fuel)) [
        | inl (why, bad) ↦ rw (bad, crawled) tt
        | inr (out_of_fuel, unfinished) ↦ rw (unfinished, crawled) tt
        | inr (done c, good) ↦
            let (u, parsed, scheme, crawlable, distinct, few) =
              targets_from_crawl-IsCrawlable net web seed (pos_part d) (pos_part p) ignore fuel c
                good in
            rw (good, crawled)
              (all-IsFine (normalize_crawl_url u) _ (pos_part d) (pos_part p) c.targets
                (web_scheme-IsFilled u.scheme scheme) crawlable
                (targets_from_crawl-IsTypical net web seed (pos_part d) (pos_part p) ignore fuel c
                  good))
      ]

  module _ (scan : Text → Option (List Text × Bool)) (sys : System) (fuel : ℕ)
      (rows : (db query : Text) (limit : ℤ) (rs : List (Option (Text × ℤ)))
        → sys.visits db query limit ≡ some rs
        → All IsRow rs)
      (url_rows : (db : Text) (rs : List (Option Text))
        → sys.urls db ≡ some rs
        → All IsUrlRow rs) where
    sources-AreFine : AreFine (sources scan net web sys fuel)
    unfolding sources
    sources-AreFine = record {
      file = targets_from_file-Gives scan net web sys fuel;
      crawl = crawled-Gives scan sys fuel;
      history = λ browser limit.
          in_browser-Gives (targets_from_history sys browser limit)
            (targets_from_history-Gives sys rows url_rows browser limit);
      bookmarks = λ browser.
          in_browser-Gives (targets_from_bookmarks sys browser)
            (targets_from_bookmarks-Gives sys rows url_rows browser);
    }

    module _ (quote unquote : Text → Text) (exact : (s : Text) → unquote (quote s) ≡ s)
        (settings : Row → TargetConfig)
        (no_auth : (r : Row) → is_empty (settings r).auth.kind ≡ true) where
      -- If net/url prints no URL with a scheme as the empty text, the rows of a browser's database have URLs, quoted
      -- texts are read as what they quote, and no credentials are read where none are printed, then the targets that a
      -- reader finds in the lines that `generate` prints, with their URLs, weights and types, and the defaults make a
      -- configuration that `validate` accepts, from whatever sources: a targets file, a crawl, the history and the
      -- bookmarks of a browser.
      pub validate-generate :
          (f : Flags) (now : Text) (printed : List TargetConfig)
          → generate (sources scan net web sys fuel) f ≡ ok printed
          → validate (record set_defaults {
            targets = read_back unquote settings (listed (format_config quote now printed));
          })
            ≡ []
      validate-generate f now printed h =
          validate-read_back quote unquote exact settings no_auth now printed
            (generate-AllFine (sources scan net web sys fuel) f printed sources-AreFine h)
