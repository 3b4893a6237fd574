-- ===== src/Generate/Ready.antt =====
-- cmd/sendit/generate.go and internal/config/config.go: the configurations that `generate` prints beside `validate`.
-- Of a printed file, the targets are what a reader finds in the lines of their URLs, weights and types, with drivers'
-- settings that are a parameter; all else is the defaults, which are what `formatConfig` prints.
pub mod Collected
pub mod Printed
pub mod Read
mod Tests
use sendit.Prelude.{
  ℕ, ◌+◌, ◌≡◌, refl, ◌∙◌, Bool, true, false, ◌&&◌, List, [], ◌∷◌, ◌++◌, Option, none, some, Result,
  ok, err, ok-injective, if◌then◌else◌, All, All-append, subst, Bool-cases, Option-cases,
  Result-cases, inl, inr, arith, ap,
}
use sendit.Prelude.Int.{ℤ, pos, leb_ℤ}
use sendit.Prelude.Text.{
  Text, codes, text_eq, one_of, has_prefix, is_space, fields_from, fields, trim_space, to_lower,
}
use sendit.Config.Schema.{TargetConfig, Config}
use sendit.Config.Validate.{
  is_empty, kept, count_checks, validate_target, at_target, validate_targets, validate,
}
use sendit.Config.TargetsFile.{atoi, weight_of, is_skipped}
use sendit.Config.Load.{set_defaults}
use sendit.Config.Load.Defaults.{validate-set_defaults, validate_target-plain}
use sendit.Generate.Targets.{
  default_target, deduplicate_from, deduplicate_targets, parse_target, targets_from_lines,
  visit_weight, targets_from_rows, is_web, SafariNodes, walk_safari_nodes, ChromeNodes,
  walk_chrome_nodes, targets_from_urls, file_kinds,
}
use sendit.Generate.Targets
use sendit.Generate.Command.{
  Flags, GenerateError, Sources, collect, append_source, checked, generate,
}

abbrev pub IsFilled : Text → Type 0
IsFilled s = is_empty s ≡ false

-- A target of a type that needs no settings, without credentials.
abbrev pub IsFine : TargetConfig → Type 0
IsFine t =
    IsFilled t.url
    × (leb_ℤ t.weight (pos 0) ≡ false)
    × (one_of t.kind file_kinds ≡ true)
    × (is_empty t.auth.kind ≡ true)

pub validate_target-IsFine : (t : TargetConfig) → IsFine t → validate_target t ≡ []
validate_target-IsFine t h = validate_target-plain t h.0 h.1 h.2 h.3

default_target-IsFine :
    (url kind : Text) (w : ℤ)
    → IsFilled url
    → leb_ℤ w (pos 0) ≡ false
    → one_of kind file_kinds ≡ true
    → IsFine (default_target url kind w)
unfolding default_target is_empty
default_target-IsFine url kind w given positive plain = (given, positive, plain, refl)

with_word : Text → List Text → List Text
with_word cur rest = elim cur [ [] ↦ rest | x ∷ xs ↦ (x ∷ xs) ∷ rest ]

with_word-IsFilled :
    (cur : Text) (rest : List Text) → All IsFilled rest → All IsFilled (with_word cur rest)
unfolding with_word is_empty
with_word-IsFilled [] rest h = h
with_word-IsFilled (x ∷ xs) rest h = (refl, h)

fields_from-IsFilled : (s : Text) → All IsFilled (fields_from s).1
unfolding fields_from with_word
fields_from-IsFilled [] = tt
fields_from-IsFilled (c ∷ s) = elim (Bool-cases (is_space c)) [
  | inl space ↦
      simp (space, fields_from)
        (with_word-IsFilled (fields_from s).0 (fields_from s).1 (fields_from-IsFilled s))
  | inr other ↦ simp (other, fields_from) (fields_from-IsFilled s)
]

-- No field of a line is empty.
fields-IsFilled : (s : Text) → All IsFilled (fields s)
unfolding fields with_word
fields-IsFilled s = with_word-IsFilled (fields_from s).0 (fields_from s).1 (fields_from-IsFilled s)

weight_of-positive :
    (more : List Text) (w : ℤ) → weight_of (pos 1) more ≡ ok w → leb_ℤ w (pos 0) ≡ false
unfolding weight_of
weight_of-positive [] w e = subst (λ v. leb_ℤ v (pos 0) ≡ false) (ok-injective (pos 1) w e) refl
weight_of-positive (field ∷ more) w e = elim (Option-cases (atoi field)) [
  | inl bad ↦ absurd (cc (rw (bad, weight_of) at e))
  | inr (v, good) ↦ elim (Bool-cases (leb_ℤ v (pos 0))) [
    | inl low ↦ absurd (cc (rw (good, low, weight_of) at e))
    | inr high ↦
        subst (λ u. leb_ℤ u (pos 0) ≡ false) (ok-injective v w (rw (good, high, weight_of) at e))
          high
  ]
]

parse_target-IsFine :
    (fs : List Text) (t : TargetConfig) → All IsFilled fs → parse_target fs ≡ ok t → IsFine t
unfolding parse_target
parse_target-IsFine [] t h e = absurd (cc e)
parse_target-IsFine (url ∷ []) t h e = absurd (cc e)
parse_target-IsFine (url ∷ kind ∷ more) t h e =
    elim (Bool-cases (one_of (to_lower kind) file_kinds)) [
      | inr unknown ↦ absurd (cc (rw unknown at e))
      | inl known ↦ elim (Result-cases (weight_of (pos 1) more)) [
        | inl (why, bad) ↦ absurd (cc (rw (known, bad) at e))
        | inr (w, good) ↦
            subst IsFine
              (ok-injective (default_target url (to_lower kind) w) t (rw (known, good) at e))
              (default_target-IsFine url (to_lower kind) w h.0 (weight_of-positive more w good)
                known)
      ]
    ]

-- Each target of a targets file that `generate` reads is one that `validate` accepts.
pub targets_from_lines-IsFine :
    (failed : Bool) (n : ℕ) (lines : List Text) (ts ts' : List TargetConfig)
    → All IsFine ts
    → targets_from_lines failed n lines ts ≡ ok ts'
    → All IsFine ts'
unfolding targets_from_lines
targets_from_lines-IsFine true n [] ts ts' h e = absurd (cc e)
targets_from_lines-IsFine false n [] ts ts' h e = subst (All IsFine) (ok-injective ts ts' e) h
targets_from_lines-IsFine failed n (raw ∷ lines) ts ts' h e =
    elim (Bool-cases (is_skipped (trim_space raw))) [
      | inl skipped ↦
          targets_from_lines-IsFine failed (n + 1) lines ts ts' h
            (rw (skipped, targets_from_lines) at e)
      | inr entry ↦ elim (Result-cases (parse_target (fields (trim_space raw)))) [
        | inl (why, bad) ↦ absurd (cc (rw (entry, bad, targets_from_lines) at e))
        | inr (t, good) ↦
            targets_from_lines-IsFine failed (n + 1) lines (ts ++ (t ∷ [])) ts'
              (All-append IsFine ts (t ∷ []) h (
                parse_target-IsFine (fields (trim_space raw)) t (fields-IsFilled (trim_space raw))
                    good,
                tt,
              ))
              (rw (entry, good, targets_from_lines) at e)
      ]
    ]

visit_weight-positive : (v : ℤ) → leb_ℤ (visit_weight v) (pos 0) ≡ false
unfolding visit_weight
visit_weight-positive v = ground arith

-- The rows that can be scanned have a URL.
abbrev pub IsRow : Option (Text × ℤ) → Type 0
IsRow none = Unit {0}
IsRow (some (url, visits)) = IsFilled url

pub targets_from_rows-IsFine :
    (rows : List (Option (Text × ℤ))) → All IsRow rows → All IsFine (targets_from_rows rows)
unfolding targets_from_rows one_of
targets_from_rows-IsFine [] h = tt
targets_from_rows-IsFine (none ∷ rows) h = targets_from_rows-IsFine rows h.1
targets_from_rows-IsFine (some (url, visits) ∷ rows) h = (
  default_target-IsFine url (codes "http") (visit_weight visits) h.0 (visit_weight-positive visits)
      refl,
  targets_from_rows-IsFine rows h.1,
)

abbrev pub IsUrlRow : Option Text → Type 0
IsUrlRow none = Unit {0}
IsUrlRow (some url) = IsFilled url

pub targets_from_urls-IsFine :
    (rows : List (Option Text)) → All IsUrlRow rows → All IsFine (targets_from_urls rows)
unfolding targets_from_urls one_of
targets_from_urls-IsFine [] h = tt
targets_from_urls-IsFine (none ∷ rows) h = targets_from_urls-IsFine rows h.1
targets_from_urls-IsFine (some url ∷ rows) h = (
  default_target-IsFine url (codes "http") (pos 1) h.0 refl refl,
  targets_from_urls-IsFine rows h.1,
)

-- The target of a bookmark, if its URL is of the web.
web_target-IsFine :
    (url : Text)
    → All IsFine (if is_web url then default_target url (codes "http") (pos 1) ∷ [] else [])
unfolding is_web has_prefix one_of is_empty
web_target-IsFine [] = tt
web_target-IsFine (c ∷ url) = elim (Bool-cases (is_web (c ∷ url))) [
  | inl web ↦ rw web (default_target-IsFine (c ∷ url) (codes "http") (pos 1) refl refl refl, tt)
  | inr other ↦ rw other tt
]

pub walk_safari_nodes-IsFine : (ns : SafariNodes) → All IsFine (walk_safari_nodes ns)
unfolding walk_safari_nodes
walk_safari_nodes-IsFine SafariNodes.nil = tt
walk_safari_nodes-IsFine (SafariNodes.node kind url children rest) =
    elim (Bool-cases (text_eq kind (codes "WebBookmarkTypeLeaf"))) [
      | inl leaf ↦
          rw (leaf, walk_safari_nodes)
            (All-append IsFine _ _ (web_target-IsFine url) (walk_safari_nodes-IsFine rest))
      | inr folder ↦
          rw (folder, walk_safari_nodes)
            (All-append IsFine _ _ (walk_safari_nodes-IsFine children)
              (walk_safari_nodes-IsFine rest))
    ]

pub walk_chrome_nodes-IsFine : (ns : ChromeNodes) → All IsFine (walk_chrome_nodes ns)
unfolding walk_chrome_nodes
walk_chrome_nodes-IsFine ChromeNodes.nil = tt
walk_chrome_nodes-IsFine (ChromeNodes.bad rest) = walk_chrome_nodes-IsFine rest
walk_chrome_nodes-IsFine (ChromeNodes.node kind url children rest) =
    elim (Bool-cases (text_eq kind (codes "url"))) [
      | inl leaf ↦
          rw (leaf, walk_chrome_nodes)
            (All-append IsFine _ _ (web_target-IsFine url) (walk_chrome_nodes-IsFine rest))
      | inr folder ↦
          rw (folder, walk_chrome_nodes)
            (All-append IsFine _ _ (walk_chrome_nodes-IsFine children)
              (walk_chrome_nodes-IsFine rest))
    ]
