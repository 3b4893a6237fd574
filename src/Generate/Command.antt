-- ===== src/Generate/Command.antt =====
-- cmd/sendit/generate.go: what `sendit generate` does with its flags, before it prints the configuration.
pub mod Listed
mod Tests
use sendit.Prelude.{
  Bool, true, false, not, ◌&&◌, ◌||◌, List, [], ◌∷◌, ◌++◌, if◌then◌else◌, Result, ok, err,
}
use sendit.Prelude.Int.{ℤ}
use sendit.Prelude.Text.{Text}
use sendit.Config.Validate.{is_empty}
use sendit.Config.Schema.{TargetConfig}
use sendit.Generate.Targets.{deduplicate_targets}

pub record Flags : Type 0 where
  pub targets_file : Text
  pub seed_url : Text
  pub crawl : Bool
  pub depth : ℤ
  pub max_pages : ℤ
  pub ignore_robots : Bool
  pub from_history : Text
  pub from_bookmarks : Text
  pub history_limit : ℤ

pub data GenerateError (E : Type 0) : Type 0 where
  crawl_without_url : GenerateError E
  in_targets_file : E → GenerateError E
  in_crawl : E → GenerateError E
  in_history : E → GenerateError E
  in_bookmarks : E → GenerateError E
  no_source : GenerateError E

-- The four sources, each with its errors.
pub record Sources (E : Type 0) : Type 0 where
  pub from_file : Text → Result E (List TargetConfig)
  pub from_crawl : Text → ℤ → ℤ → Bool → Result E (List TargetConfig)
  pub from_history : Text → ℤ → Result E (List TargetConfig)
  pub from_bookmarks : Text → Result E (List TargetConfig)

module _ {E : Type 0} where
  -- `if asked { ts, err := …; targets = append(targets, ts...) }`.
  unfoldable pub append_source :
      Bool
      → (E → GenerateError E)
      → Result E (List TargetConfig)
      → Result (GenerateError E) (List TargetConfig)
      → Result (GenerateError E) (List TargetConfig)
  append_source asked wrap source (err e) = err e
  append_source false wrap source (ok targets) = ok targets
  append_source true wrap (err e) (ok targets) = err (wrap e)
  append_source true wrap (ok more) (ok targets) = ok (targets ++ more)

  -- The targets of all sources asked for.
  unfoldable pub collect : Sources E → Flags → Result (GenerateError E) (List TargetConfig)
  unfolding append_source is_empty
  collect s f =
      let file =
        append_source (not (is_empty f.targets_file)) in_targets_file (s.from_file f.targets_file)
          (ok []) in
      let crawled =
        append_source (f.crawl || not (is_empty f.seed_url)) in_crawl
          (s.from_crawl f.seed_url f.depth f.max_pages f.ignore_robots) file in
      let history =
        append_source (not (is_empty f.from_history)) in_history
          (s.from_history f.from_history f.history_limit) crawled in
      append_source (not (is_empty f.from_bookmarks)) in_bookmarks
        (s.from_bookmarks f.from_bookmarks) history

  unfoldable pub checked :
      Result (GenerateError E) (List TargetConfig) → Result (GenerateError E) (List TargetConfig)
  unfolding deduplicate_targets
  checked (err e) = err e
  checked (ok []) = err no_source
  checked (ok (t ∷ ts)) = ok (deduplicate_targets (t ∷ ts))

  unfoldable pub generate : Sources E → Flags → Result (GenerateError E) (List TargetConfig)
  unfolding collect checked is_empty
  generate s f =
      if f.crawl && is_empty f.seed_url then err crawl_without_url else checked (collect s f)
