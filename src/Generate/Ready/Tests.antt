-- ===== src/Generate/Ready/Tests.antt =====
-- cmd/sendit/generate.go: a configuration printed from a file and a history, and the theorem at it.
use sendit.Prelude.{
  ◌≡◌, refl, Bool, true, false, List, [], ◌∷◌, ◌++◌, Option, none, some, ok, err, All, subst,
}
use sendit.Prelude.Int.{ℤ, pos}
use sendit.Prelude.Text.{Text, codes}
use sendit.Config.Schema.{TargetConfig}
use sendit.Config.Validate.{is_empty, validate}
use sendit.Config.Load.{set_defaults}
use sendit.Generate.Url.{Urls}
use sendit.Generate.Page.{Web}
use sendit.Generate.Targets.{default_target}
use sendit.Generate.Browser.{System, unparsable}
use sendit.Generate.Command.{Flags, generate}
use sendit.Generate.Sources.{sources}
use sendit.Generate.Emit.{format_config}
use sendit.Generate.Emit.Written.{Row, listed}
use sendit.Generate.Ready.Read.{read_back}
use sendit.Generate.Ready.{IsFilled, IsRow, IsUrlRow}
use sendit.Generate.Ready.Collected.{validate-generate}

abbrev net : Urls
net = record {
  parse = λ s. none;
  print = λ u. u.scheme ++ (codes "://" ++ (u.host ++ u.path));
  resolve = λ page ref. ref;
}

prints : (s rest : Text) → IsFilled s → IsFilled (s ++ rest)
unfolding is_empty
prints [] rest h = cc h
prints (c ∷ s) rest h = refl

abbrev web : Web
web = record {
  fetch = λ s. none;
  parse_html = λ body. none;
  decode_sitemap = λ body. none;
  lines = λ r. [];
}

-- A system whose browser has been to two pages, one of which cannot be read.
abbrev two_visits : List (Option (Text × ℤ))
two_visits = some (codes "http://b.example/", pos 25) ∷ none ∷ []

abbrev linux : System
linux = record {
  goos = codes "linux";
  home = some (codes "/home/u");
  join = λ parts. codes "/db";
  dir = λ path. path;
  is_abs = λ path. true;
  exists = λ path. true;
  lines = λ path. none;
  entries = λ path. none;
  visits = λ db query limit. some two_visits;
  urls = λ db. none;
  bookmarks_json = λ path. err unparsable;
  bookmarks_plist = λ path. err unparsable;
}

visits_filled :
    (db query : Text) (limit : ℤ) (rs : List (Option (Text × ℤ)))
    → some two_visits ≡ some rs
    → All IsRow rs
unfolding is_empty
visits_filled db query limit rs e = subst (All IsRow) (some_inj e) (refl, (tt, tt))
  where
    some_inj : some two_visits ≡ some rs → two_visits ≡ rs
    some_inj e = cc e

no_bookmarks : (db : Text) (rs : List (Option Text)) → none ≡ some rs → All IsUrlRow rs
no_bookmarks db rs e = absurd (cc e)

abbrev scan : Text → Option (List Text × Bool)
scan path = some (codes "a.example dns 3" ∷ [], false)

abbrev flags : Flags
flags = record {
  targets_file = codes "t.txt";
  seed_url = [];
  crawl = false;
  depth = pos 2;
  max_pages = pos 50;
  ignore_robots = false;
  from_history = codes "Chrome";
  from_bookmarks = [];
  history_limit = pos 100;
}

abbrev printed : List TargetConfig
printed =
    default_target (codes "a.example") (codes "dns") (pos 3)
    ∷ default_target (codes "http://b.example/") (codes "http") (pos 10)
    ∷ []

prints_both : generate (sources scan net web linux 0) flags ≡ ok printed
unfolding generate sources default_target
prints_both = refl

abbrev quote : Text → Text
quote s = b'"' ∷ s

unfoldable unquote : Text → Text
unquote [] = []
unquote (c ∷ s) = s

abbrev settings : Row → TargetConfig
settings r = default_target [] [] (pos 1)

exact : (s : Text) → unquote (quote s) ≡ s
unfolding unquote
exact s = refl

no_auth : (r : Row) → is_empty (settings r).auth.kind ≡ true
unfolding default_target is_empty
no_auth r = refl

validate-generate_example :
    validate (record set_defaults {
      targets = read_back unquote settings (listed (format_config quote (codes "now") printed));
    })
    ≡ []
validate-generate_example =
    validate-generate net web (λ u h. prints u.scheme (codes "://" ++ (u.host ++ u.path)) h) scan
      linux 0 visits_filled no_bookmarks quote unquote exact settings no_auth flags (codes "now")
      printed prints_both
