-- ===== src/Generate/Targets.antt =====
-- cmd/sendit/generate.go: `defaultTarget`, `deduplicateTargets`, `targetsFromFile` on the lines of
-- the scanner, the rows of `historyFromSQLite`, and `walkSafariNodes`.
pub mod Unique
mod Tests
use sendit.Prelude.{
  ℕ, ◌+◌, Bool, true, false, not, ◌&&◌, ◌||◌, List, [], ◌∷◌, ◌++◌, Option, none, some,
  if◌then◌else◌, Result, ok, err,
}
use sendit.Prelude.Int.{ℤ, pos, negsuc, leb_ℤ, ltb_ℤ}
use sendit.Prelude.Text.{Text, codes, text_eq, has_prefix, one_of, trim_space, fields, to_lower}
use sendit.Config.Schema.{TargetConfig}
use sendit.Config.Samples.{no_auth}
use sendit.Config.TargetsFile.{
  weight_of, LineError, too_few_fields, unknown_type, invalid_weight, LoadError, at_line,
  scan_failed, is_skipped,
}

-- `defaultTarget`: what it does not name is the zero of its type.
unfoldable pub default_target : Text → Text → ℤ → TargetConfig
default_target url kind weight = record {
  url = url;
  weight = weight;
  kind = kind;
  auth = no_auth;
  http = record {
    method = codes "GET";
    headers = [];
    body = [];
    timeout_s = pos 15;
    allow_cross_host_redirects = false;
  };
  browser = record { scroll = false; wait_for_selector = []; timeout_s = pos 0 };
  dns = record { resolver = codes "8.8.8.8:53"; record_type = codes "A" };
  websocket = record { duration_s = pos 30; send_messages = []; expect_messages = pos 0 };
  grpc = record { body = []; timeout_s = pos 0; tls = false; insecure = false };
  sftp = record {
    port = pos 0;
    operation = [];
    timeout_s = pos 0;
    insecure = false;
    username = [];
    password = [];
    private_key = [];
    file_size_bytes = pos 0;
    file_size_min_bytes = pos 0;
    file_size_max_bytes = pos 0;
    eicar = false;
    allowed_ciphers = [];
    allowed_kex = [];
    allowed_host_key_types = [];
    allowed_macs = [];
  };
}

-- `deduplicateTargets`, with the URLs seen.
unfoldable pub deduplicate_from : List Text → List TargetConfig → List TargetConfig
unfolding one_of
deduplicate_from seen [] = []
deduplicate_from seen (t ∷ ts) = elim (one_of t.url seen) [
  | true ↦ deduplicate_from seen ts
  | false ↦ t ∷ deduplicate_from (t.url ∷ seen) ts
]

unfoldable pub deduplicate_targets : List TargetConfig → List TargetConfig
unfolding deduplicate_from
deduplicate_targets ts = deduplicate_from [] ts

abbrev pub file_kinds : List Text
file_kinds = codes "http" ∷ codes "browser" ∷ codes "dns" ∷ codes "websocket" ∷ []

-- The fields of a line of a targets file that is neither blank nor a comment.
unfoldable pub parse_target : List Text → Result LineError TargetConfig
unfolding one_of to_lower weight_of default_target
parse_target (url ∷ kind ∷ more) =
    if one_of (to_lower kind) file_kinds
    then (elim (weight_of (pos 1) more) [
      | err e ↦ err e
      | ok w ↦ ok (default_target url (to_lower kind) w)
    ])
    else err unknown_type
parse_target _ = err too_few_fields

-- `targetsFromFile`, from the line after the line `n` on.
unfoldable pub targets_from_lines :
    Bool → ℕ → List Text → List TargetConfig → Result LoadError (List TargetConfig)
unfolding trim_space fields is_skipped parse_target
targets_from_lines failed n [] targets = if failed then err scan_failed else ok targets
targets_from_lines failed n (raw ∷ lines) targets = elim (is_skipped (trim_space raw)) [
  | true ↦ targets_from_lines failed (n + 1) lines targets
  | false ↦ elim (parse_target (fields (trim_space raw))) [
    | err e ↦ err (at_line (n + 1) e)
    | ok t ↦ targets_from_lines failed (n + 1) lines (targets ++ (t ∷ []))
  ]
]

-- The weight of a row of a browser's history.
unfoldable pub visit_weight : ℤ → ℤ
visit_weight visits =
    let weight = if ltb_ℤ (pos 10) visits then pos 10 else visits in
    if ltb_ℤ weight (pos 1) then pos 1 else weight

-- The loop over the rows: a URL and a number of visits, or none if the row cannot be scanned.
unfoldable pub targets_from_rows : List (Option (Text × ℤ)) → List TargetConfig
unfolding visit_weight default_target
targets_from_rows [] = []
targets_from_rows (none ∷ rows) = targets_from_rows rows
targets_from_rows (some (url, visits) ∷ rows) =
    default_target url (codes "http") (visit_weight visits) ∷ targets_from_rows rows

-- `[]safariBookmarkNode`: a first node with its children, and the nodes behind it.
pub data SafariNodes : Type 0 where
  nil : SafariNodes
  node : (kind : Text) (url : Text) (children : SafariNodes) (rest : SafariNodes) → SafariNodes

unfoldable pub is_web : Text → Bool
unfolding has_prefix
is_web url = has_prefix url (codes "http://") || has_prefix url (codes "https://")

unfoldable pub walk_safari_nodes : SafariNodes → List TargetConfig
unfolding text_eq is_web default_target
walk_safari_nodes nil = []
walk_safari_nodes (node kind url children rest) =
    let below = walk_safari_nodes children in
    (if text_eq kind (codes "WebBookmarkTypeLeaf")
      then (if is_web url then default_target url (codes "http") (pos 1) ∷ [] else [])
      else below)
    ++ walk_safari_nodes rest

-- The children of a Chrome bookmark node: a first one with its own children and those behind it; `bad` is
-- one that is not such a node.
pub data ChromeNodes : Type 0 where
  nil : ChromeNodes
  bad : (rest : ChromeNodes) → ChromeNodes
  node : (kind : Text) (url : Text) (children : ChromeNodes) (rest : ChromeNodes) → ChromeNodes

-- `walkChromeNode` on each of the nodes.
unfoldable pub walk_chrome_nodes : ChromeNodes → List TargetConfig
unfolding text_eq is_web default_target
walk_chrome_nodes nil = []
walk_chrome_nodes (bad rest) = walk_chrome_nodes rest
walk_chrome_nodes (node kind url children rest) =
    let below = walk_chrome_nodes children in
    (if text_eq kind (codes "url")
      then (if is_web url then default_target url (codes "http") (pos 1) ∷ [] else [])
      else below)
    ++ walk_chrome_nodes rest

-- The loop over the rows of `firefoxBookmarks`.
unfoldable pub targets_from_urls : List (Option Text) → List TargetConfig
unfolding default_target
targets_from_urls [] = []
targets_from_urls (none ∷ rows) = targets_from_urls rows
targets_from_urls (some url ∷ rows) =
    default_target url (codes "http") (pos 1) ∷ targets_from_urls rows
