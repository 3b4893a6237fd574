-- ===== src/Generate/Ready/Printed.antt =====
-- cmd/sendit/generate.go and internal/config/config.go: `validate` on what `generate` prints.
use sendit.Prelude.{
  ℕ, ◌+◌, ◌≡◌, ◌≢◌, refl, ◌∙◌, Bool, true, false, ◌&&◌, List, [], ◌∷◌, Result, ok, err,
  ok-injective, All, All-append, subst, Bool-cases, inl, inr,
}
use sendit.Prelude.Int.{ℤ}
use sendit.Prelude.Text.{Text, one_of}
use sendit.Config.Schema.{TargetConfig}
use sendit.Config.Validate.{is_empty, kept, validate_targets, validate}
use sendit.Config.Load.{set_defaults}
use sendit.Config.Load.Defaults.{validate-set_defaults}
use sendit.Generate.Targets.{deduplicate_from, deduplicate_targets}
use sendit.Generate.Command.{
  Flags, GenerateError, Sources, collect, append_source, checked, generate, in_targets_file,
  in_crawl, in_history, in_bookmarks,
}
use sendit.Generate.Ready.{IsFine, validate_target-IsFine}

validate_targets-nil : (i : ℕ) (ts : List TargetConfig) → All IsFine ts → validate_targets i ts ≡ []
unfolding validate_targets
validate_targets-nil i [] h = refl
validate_targets-nil i (t ∷ ts) h =
    rw (validate_target-IsFine t h.0) (validate_targets-nil (i + 1) ts h.1)

deduplicate_from-All :
    (P : TargetConfig → Type 0) (seen : List Text) (ts : List TargetConfig)
    → All P ts
    → All P (deduplicate_from seen ts)
unfolding deduplicate_from
deduplicate_from-All P seen [] h = tt
deduplicate_from-All P seen (t ∷ ts) h = elim (Bool-cases (one_of t.url seen)) [
  | inl old ↦ rw (old, deduplicate_from) (deduplicate_from-All P seen ts h.1)
  | inr new ↦ rw (new, deduplicate_from) (h.0, deduplicate_from-All P (t.url ∷ seen) ts h.1)
]

-- If there is a result, it is fine.
abbrev pub Gives : {F : Type 0} → Result F (List TargetConfig) → Type 0
Gives (err e) = Unit {0}
Gives (ok ts) = All IsFine ts

-- At least one target, all of them fine.
pub validate-IsFine :
    (t : TargetConfig) (ts : List TargetConfig)
    → All IsFine (t ∷ ts)
    → validate (record set_defaults { targets = t ∷ ts }) ≡ []
unfolding kept
validate-IsFine t ts h =
    validate-set_defaults (t ∷ ts) ∙ rw (validate_targets-nil 0 (t ∷ ts) h) refl

-- At least one target, and all of them fine.
unfoldable pub AllFine : List TargetConfig → Type 0
AllFine ts = (ts ≢ []) × All IsFine ts

module _ {E : Type 0} where
  append_source-Gives :
      (asked : Bool) (wrap : E → GenerateError E) (source : Result E (List TargetConfig))
      (before : Result (GenerateError E) (List TargetConfig))
      → Gives source
      → Gives before
      → Gives (append_source asked wrap source before)
  unfolding append_source
  append_source-Gives asked wrap source (err e) h k = tt
  append_source-Gives false wrap source (ok ts) h k = k
  append_source-Gives true wrap (err e) (ok ts) h k = tt
  append_source-Gives true wrap (ok more) (ok ts) h k = All-append IsFine ts more k h

  -- Sources whose targets are all fine.
  pub record AreFine (s : Sources E) : Type 0 where
    pub file : (path : Text) → Gives (s.from_file path)
    pub crawl : (seed : Text) (d p : ℤ) (ignore : Bool) → Gives (s.from_crawl seed d p ignore)
    pub history : (browser : Text) (limit : ℤ) → Gives (s.from_history browser limit)
    pub bookmarks : (browser : Text) → Gives (s.from_bookmarks browser)

  collect-Gives : (s : Sources E) (f : Flags) → AreFine s → Gives (collect s f)
  unfolding collect
  collect-Gives s f h = append_source-Gives _ in_bookmarks _ _ (h.bookmarks f.from_bookmarks) (
      append_source-Gives _ in_history _ _ (h.history f.from_history f.history_limit) (
        append_source-Gives _ in_crawl _ _ (h.crawl f.seed_url f.depth f.max_pages f.ignore_robots)
          (append_source-Gives _ in_targets_file _ (ok []) (h.file f.targets_file) tt)))

  checked-AllFine :
      (r : Result (GenerateError E) (List TargetConfig)) (printed : List TargetConfig)
      → Gives r
      → checked r ≡ ok printed
      → AllFine printed
  unfolding checked deduplicate_targets deduplicate_from one_of AllFine
  checked-AllFine (err e) printed h k = absurd (cc k)
  checked-AllFine (ok []) printed h k = absurd (cc k)
  checked-AllFine (ok (t ∷ ts)) printed h k =
      subst AllFine (ok-injective (t ∷ deduplicate_from (t.url ∷ []) ts) printed k)
        (λ e. cc e, (h.0, deduplicate_from-All IsFine (t.url ∷ []) ts h.1))

  pub generate-AllFine :
      (s : Sources E) (f : Flags) (printed : List TargetConfig)
      → AreFine s
      → generate s f ≡ ok printed
      → AllFine printed
  unfolding generate
  generate-AllFine s f printed h k = elim (Bool-cases (f.crawl && is_empty f.seed_url)) [
    | inl bad ↦ absurd (cc (rw (bad, generate) at k))
    | inr good ↦
        checked-AllFine (collect s f) printed (collect-Gives s f h) (rw (good, generate) at k)
  ]
