-- ===== src/Generate/Command/Listed.antt =====
-- cmd/sendit/generate.go: the targets that `sendit generate` prints.
use sendit.Prelude.{
  ◌≡◌, ◌≢◌, refl, sym, ap, ◌∙◌, Bool, true, false, not, ◌&&◌, ◌||◌, List, [], ◌∷◌, ◌++◌, append-nil,
  Result, ok, err, ok-injective, Bool-cases, inl, inr, subst,
}
use sendit.Prelude.Text.{Text, one_of}
use sendit.Prelude.Distinct.{IsDistinct}
use sendit.Config.Validate.{is_empty}
use sendit.Config.Schema.{TargetConfig}
use sendit.Engine.Reload.{urls}
use sendit.Generate.Targets.{deduplicate_targets, deduplicate_from}
use sendit.Generate.Targets.Unique.{deduplicate_targets-IsDistinct}
use sendit.Generate.Command.{
  Flags, GenerateError, in_targets_file, in_crawl, in_history, Sources, append_source, collect,
  checked, generate,
}

-- What the printed targets are, from the collected ones.
pub record Listed (all printed : List TargetConfig) : Type 0 where
  same_urls : (u : Text) → one_of u (urls printed) ≡ one_of u (urls all)
  distinct : IsDistinct (urls printed)
  not_empty : printed ≢ []

module _ {E : Type 0} where
  checked-Listed :
      (r : Result (GenerateError E) (List TargetConfig)) (printed : List TargetConfig)
      → checked r ≡ ok printed
      → (all : List TargetConfig) × (r ≡ ok all) × Listed all printed
  unfolding checked deduplicate_targets deduplicate_from one_of
  checked-Listed (err e) printed h = absurd (cc h)
  checked-Listed (ok []) printed h = absurd (cc h)
  checked-Listed (ok (t ∷ ts)) printed h =
      let same : deduplicate_targets (t ∷ ts) ≡ printed = cc h in
      let d = deduplicate_targets-IsDistinct (t ∷ ts) in
      (
        t ∷ ts,
        refl,
        subst (Listed (t ∷ ts)) same
            (record { same_urls = d.1; distinct = d.0; not_empty = λ e. cc e }),
      )

  -- What a source adds: its targets if it is asked for, which has not failed then, and nothing if not.
  pub data Adds : Bool → Result E (List TargetConfig) → List TargetConfig → Type 0 where
    asked : (ts : List TargetConfig) → Adds true (ok ts) ts
    not_asked : {r : Result E (List TargetConfig)} → Adds false r []

  append_source-Adds :
      (b : Bool) (wrap : E → GenerateError E) (source : Result E (List TargetConfig))
      (before : Result (GenerateError E) (List TargetConfig)) (all : List TargetConfig)
      → append_source b wrap source before ≡ ok all
      → (old : List TargetConfig) × (ts : List TargetConfig) × (before ≡ ok old)
        × Adds b source ts
        × (all ≡ old ++ ts)
  unfolding append_source
  append_source-Adds b wrap source (err e) all h = absurd (cc h)
  append_source-Adds false wrap source (ok old) all h =
      (old, [], refl, not_asked, sym (ok-injective old all h) ∙ sym (append-nil old))
  append_source-Adds true wrap (err e) (ok old) all h = absurd (cc h)
  append_source-Adds true wrap (ok ts) (ok old) all h =
      (old, ts, refl, asked ts, sym (ok-injective (old ++ ts) all h))

  -- The targets of the four sources, in this order.
  pub record FromSources (s : Sources E) (f : Flags) (all : List TargetConfig) : Type 0 where
    file : List TargetConfig
    crawled : List TargetConfig
    history : List TargetConfig
    bookmarks : List TargetConfig
    from_file : Adds (not (is_empty f.targets_file)) (s.from_file f.targets_file) file
    from_crawl :
        Adds
          (f.crawl || not (is_empty f.seed_url))
          (s.from_crawl f.seed_url f.depth f.max_pages f.ignore_robots)
          crawled
    from_history :
        Adds (not (is_empty f.from_history)) (s.from_history f.from_history f.history_limit) history
    from_bookmarks :
        Adds (not (is_empty f.from_bookmarks)) (s.from_bookmarks f.from_bookmarks) bookmarks
    together : all ≡ ((file ++ crawled) ++ history) ++ bookmarks

  collect-FromSources :
      (s : Sources E) (f : Flags) (all : List TargetConfig)
      → collect s f ≡ ok all
      → FromSources s f all
  unfolding collect
  collect-FromSources s f all h =
      let Targets = Result (GenerateError E) (List TargetConfig) in
      let first : Targets =
        append_source (not (is_empty f.targets_file)) in_targets_file (s.from_file f.targets_file)
          (ok []) in
      let second : Targets =
        append_source (f.crawl || not (is_empty f.seed_url)) in_crawl
          (s.from_crawl f.seed_url f.depth f.max_pages f.ignore_robots) first in
      let third : Targets =
        append_source (not (is_empty f.from_history)) in_history
          (s.from_history f.from_history f.history_limit) second in
      let (three, bookmarks, e_d, adds_d, shape_d) = append_source-Adds _ _ _ third all h in
      let (two, history, e_c, adds_c, shape_c) = append_source-Adds _ _ _ second three e_d in
      let (one, crawled, e_b, adds_b, shape_b) = append_source-Adds _ _ _ first two e_c in
      let (none_yet, file, e_a, adds_a, shape_a) = append_source-Adds _ _ _ (ok []) one e_b in
      let empty : [] ≡ none_yet = ok-injective [] none_yet e_a in
      let shape : one ≡ file = shape_a ∙ ap (λ l. l ++ file) (sym empty) in
      record {
        file = file;
        crawled = crawled;
        history = history;
        bookmarks = bookmarks;
        from_file = adds_a;
        from_crawl = adds_b;
        from_history = adds_c;
        from_bookmarks = adds_d;
        together =
            shape_d
            ∙ ap (λ l. l ++ bookmarks)
                (shape_c ∙ ap (λ l. l ++ history) (shape_b ∙ ap (λ l. l ++ crawled) shape));
      }

  -- When `generate` succeeds, each source that the flags ask for (a file, a crawl, a history, bookmarks) has succeeded,
  -- and the targets that are printed are not none, have no URL twice, and have exactly the URLs that these sources
  -- returned.
  pub generate-Listed :
      (s : Sources E) (f : Flags) (printed : List TargetConfig)
      → generate s f ≡ ok printed
      → (all : List TargetConfig) × FromSources s f all × Listed all printed
  unfolding generate
  generate-Listed s f printed h = elim (Bool-cases (f.crawl && is_empty f.seed_url)) [
    | inl bad ↦ absurd (cc (rw (bad, generate) at h))
    | inr good ↦
        let (all, collected, listed) =
          checked-Listed (collect s f) printed (rw (good, generate) at h) in
        (all, collect-FromSources s f all collected, listed)
  ]
