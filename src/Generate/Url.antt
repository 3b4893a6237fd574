-- ===== src/Generate/Url.antt =====
-- cmd/sendit/generate.go: what the crawl asks of a URL, and the paths of path/filepath on a system with
-- slashes. The parser and the printer of net/url are a parameter, `Urls`.
pub mod Normal
mod Tests
use sendit.Prelude.{
  ℕ, Bool, true, false, not, ◌&&◌, ◌||◌, ◌==◌, List, [], ◌∷◌, Option, none, some, if◌then◌else◌,
}
use sendit.Prelude.Text.{Text, codes, text_eq, has_prefix, contains, one_of, to_lower}
use sendit.Config.Validate.{is_empty}

-- `others` stands for the fields that the code never names: the user, the opaque part, the raw path and flags.
pub record Url : Type 0 where
  pub scheme : Text
  pub host : Text
  pub path : Text
  pub raw_query : Text
  pub fragment : Text
  pub others : Text

-- `url.Parse`, `String` and `ResolveReference`.
pub record Urls : Type 0 where
  pub parse : Text → Option Url
  pub print : Url → Text
  pub resolve : Url → Url → Url

-- `strings.TrimRight(s, "/")`.
unfoldable pub trim_slashes : Text → Text
unfolding is_empty
trim_slashes [] = []
trim_slashes (c ∷ s) =
    let rest = trim_slashes s in if is_empty rest && c == b'/' then [] else c ∷ rest

unfoldable pub normalize_path : Text → Text
unfolding trim_slashes text_eq
normalize_path [] = codes "/"
normalize_path (c ∷ s) = if text_eq (c ∷ s) (codes "/") then c ∷ s else trim_slashes (c ∷ s)

-- `normalizeCrawlURL`.
unfoldable pub normalize_crawl_url : Url → Url
unfolding normalize_path
normalize_crawl_url u = record u { fragment = []; raw_query = []; path = normalize_path u.path }

unfoldable pub has_byte : ℕ → Text → Bool
has_byte b [] = false
has_byte b (c ∷ s) = c == b || has_byte b s

-- `filepath.Ext`.
unfoldable pub ext : Text → Text
unfolding is_empty has_byte
ext [] = []
ext (c ∷ s) =
    let rest = ext s in if is_empty rest && c == b'.' && not (has_byte b'/' s) then c ∷ s else rest

-- What is behind the last slash.
unfoldable pub last_element : Text → Text
unfolding has_byte
last_element [] = []
last_element (c ∷ s) =
    let rest = last_element s in if has_byte b'/' s then rest else if c == b'/' then s else c ∷ s

-- `filepath.Base`.
unfoldable pub base_name : Text → Text
unfolding last_element trim_slashes is_empty
base_name [] = codes "."
base_name (c ∷ s) =
    let name = last_element (trim_slashes (c ∷ s)) in if is_empty name then codes "/" else name

-- `strings.HasSuffix`.
unfoldable pub has_suffix : Text → Text → Bool
unfolding text_eq
has_suffix [] p = text_eq [] p
has_suffix (c ∷ s) p = text_eq (c ∷ s) p || has_suffix s p

abbrev pub other_extensions : List Text
other_extensions =
    codes ".xml"
    ∷ codes ".json"
    ∷ codes ".atom"
    ∷ codes ".rss"
    ∷ codes ".pdf"
    ∷ codes ".doc"
    ∷ codes ".docx"
    ∷ codes ".xls"
    ∷ codes ".xlsx"
    ∷ codes ".ppt"
    ∷ codes ".pptx"
    ∷ codes ".css"
    ∷ codes ".js"
    ∷ codes ".ts"
    ∷ codes ".map"
    ∷ codes ".png"
    ∷ codes ".jpg"
    ∷ codes ".jpeg"
    ∷ codes ".gif"
    ∷ codes ".webp"
    ∷ codes ".svg"
    ∷ codes ".ico"
    ∷ codes ".avif"
    ∷ codes ".woff"
    ∷ codes ".woff2"
    ∷ codes ".ttf"
    ∷ codes ".eot"
    ∷ codes ".otf"
    ∷ codes ".mp4"
    ∷ codes ".mp3"
    ∷ codes ".webm"
    ∷ codes ".ogg"
    ∷ codes ".wav"
    ∷ codes ".zip"
    ∷ codes ".gz"
    ∷ codes ".tar"
    ∷ codes ".br"
    ∷ []

unfoldable pub is_html_path : Text → Bool
unfolding ext one_of to_lower
is_html_path path = not (one_of (to_lower (ext path)) other_extensions)

unfoldable pub is_sitemap_path : Text → Bool
unfolding base_name contains has_suffix to_lower
is_sitemap_path path =
    let name = to_lower (base_name path) in
    contains name (codes "sitemap") && has_suffix name (codes ".xml")

unfoldable pub starts_with_any : Text → List Text → Bool
unfolding has_prefix
starts_with_any path [] = false
starts_with_any path (d ∷ ds) = has_prefix path d || starts_with_any path ds

module _ (urls : Urls) where
  -- `isHTMLURL`.
  unfoldable pub is_html_url : Text → Bool
  unfolding is_html_path
  is_html_url raw = elim (urls.parse raw) [ none ↦ false | some u ↦ is_html_path u.path ]

  -- `isSitemapURL`.
  unfoldable pub is_sitemap_url : Text → Bool
  unfolding is_sitemap_path
  is_sitemap_url raw = elim (urls.parse raw) [ none ↦ false | some u ↦ is_sitemap_path u.path ]

  -- `isDisallowed`.
  unfoldable pub is_disallowed : Text → List Text → Bool
  unfolding starts_with_any
  is_disallowed raw disallowed = elim (urls.parse raw) [
    | none ↦ false
    | some u ↦ starts_with_any u.path disallowed
  ]
