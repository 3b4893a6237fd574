-- ===== src/Config/TargetsFile.antt =====
-- internal/config/config.go: `loadTargetsFile`, on the lines that the scanner returns and on whether it
-- ends with an error. The file itself is not modelled. Texts are ASCII, where `ToLower` is plain.
pub mod Loaded
mod Tests
use sendit.Prelude.{
  ℕ, ◌+◌, ◌-◌, ◌*◌, ◌^◌, ◌==◌, Bool, true, false, not, ◌&&◌, ◌||◌, List, [], ◌∷◌, ◌++◌, Option,
  none, some, if◌then◌else◌, ltb, leb, Result, ok, err, ◌>>=◌,
}
use sendit.Prelude.Int.{ℤ, pos, negsuc, leb_ℤ}
use sendit.Prelude.Text.{Text, codes, text_eq, has_prefix, one_of, trim_space, fields, to_lower}
use sendit.Config.Schema.{TargetDefaultsConfig, TargetConfig}
use sendit.Config.Validate.{kinds, is_empty}

-- The digits of a number, read from the left.
unfoldable pub digits : ℕ → Text → Option ℕ
digits n [] = some n
digits n (c ∷ s) =
    let rest = digits (10 * n + (c - b'0')) s in if leb b'0' c && leb c b'9' then rest else none

-- `strconv.Atoi` without a sign, and with one; `none` is its error, also for what is no int64.
unfoldable pub natural : Text → Option ℕ
unfolding digits
natural [] = none
natural (c ∷ s) = digits 0 (c ∷ s)

unfoldable pub atoi : Text → Option ℤ
unfolding natural
atoi [] = none
atoi (c ∷ s) =
    if c == b'-'
    then elim (natural s) [
      | none ↦ none
      | some n ↦ if leb n (2 ^ 63) then some (if n == 0 then pos 0 else negsuc (n - 1)) else none
    ]
    else elim (natural (if c == b'+' then s else c ∷ s)) [
      | none ↦ none
      | some n ↦ if ltb n (2 ^ 63) then some (pos n) else none
    ]

pub data LineError : Type 0 where
  too_few_fields unknown_type invalid_weight : LineError

pub data LoadError : Type 0 where
  at_line : (n : ℕ) (e : LineError) → LoadError
  scan_failed : LoadError

-- The weight that the third field gives, if there is one, and else the default.
unfoldable pub weight_of : ℤ → List Text → Result LineError ℤ
unfolding atoi
weight_of default [] = ok default
weight_of default (field ∷ more) = elim (atoi field) [
  | none ↦ err invalid_weight
  | some w ↦ if leb_ℤ w (pos 0) then err invalid_weight else ok w
]

-- The fields of a line that is neither blank nor a comment.
unfoldable pub parse_fields : TargetDefaultsConfig → List Text → Result LineError TargetConfig
unfolding weight_of one_of to_lower
parse_fields d (url ∷ kind ∷ more) =
    if one_of (to_lower kind) kinds
    then elim (weight_of d.weight more) [
      | err e ↦ err e
      | ok w ↦ ok (record {
        url = url;
        weight = if leb_ℤ w (pos 0) then pos 1 else w;
        kind = to_lower kind;
        auth = d.auth;
        http = d.http;
        browser = d.browser;
        dns = d.dns;
        websocket = d.websocket;
        grpc = d.grpc;
        sftp = d.sftp;
      })
    ]
    else err unknown_type
parse_fields d _ = err too_few_fields

unfoldable pub is_skipped : Text → Bool
unfolding is_empty has_prefix
is_skipped line = is_empty line || has_prefix line (codes "#")

-- The loop over the lines, from the line after the line `n` on: the targets, to which it appends.
unfoldable pub load_lines :
    TargetDefaultsConfig
    → Bool
    → ℕ
    → List Text
    → List TargetConfig
    → Result LoadError (List TargetConfig)
unfolding trim_space fields is_skipped parse_fields
load_lines d failed n [] targets = if failed then err scan_failed else ok targets
load_lines d failed n (raw ∷ lines) targets = elim (is_skipped (trim_space raw)) [
  | true ↦ load_lines d failed (n + 1) lines targets
  | false ↦ elim (parse_fields d (fields (trim_space raw))) [
    | err e ↦ err (at_line (n + 1) e)
    | ok t ↦ load_lines d failed (n + 1) lines (targets ++ (t ∷ []))
  ]
]
