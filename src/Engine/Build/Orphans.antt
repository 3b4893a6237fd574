-- ===== src/Engine/Build/Orphans.antt =====
-- internal/engine/engine.go: the files that `New` leaves open.
use sendit.Prelude.{
  ℕ, ◌≡◌, refl, Bool, true, false, not, ◌&&◌, List, [], ◌∷◌, ◌++◌, none, some, Result, ok, err,
  Bool-cases, inl, inr, if◌then◌else◌, ◌||◌,
}
use sendit.Prelude.Text.{Text, one_of, text_eq_refl}
use sendit.Config.Schema.{Micro, Config}
use sendit.Config.Validate.{is_empty, validate}
use sendit.Engine.Reload.Validated.{new_engine-validate}
use sendit.Engine.Build.{BuildError, Built, with_pcap_writer, build}

-- The files of the writers that a result has.
unfoldable pub held : {L : Type 0} → Result BuildError (Built L) → List Text
held (err e) = []
held (ok b) =
    (elim b.writer as (λ _. List Text) [ none ↦ [] | some f ↦ f ∷ [] ])
    ++ (elim b.pcap_writer as (λ _. List Text) [ none ↦ [] | some f ↦ f ∷ [] ])

unfoldable pub unheld : List Text → List Text → List Text
unfolding one_of
unheld [] hs = []
unheld (f ∷ fs) hs = let rest = unheld fs hs in if one_of f hs then rest else f ∷ rest

-- The files that are open, with a goroutine each, and that nobody can close.
unfoldable pub orphans : {L : Type 0} → List Text × Result BuildError (Built L) → List Text
unfolding held unheld
orphans (files, r) = unheld files (held r)

or_true : (b : Bool) → (b || true) ≡ true
or_true true = refl
or_true false = refl

module _ {L : Type 0} (new_limiter : Micro → ℕ → ℕ → L) (opens : Text → Bool) where
  -- Of a configuration in which `validate` finds nothing, `New` leaves a file open that no writer of its result has,
  -- the file of the output writer, exactly if the output is enabled, its file can be opened, and a capture is asked
  -- for that cannot be opened.
  pub orphans-build :
      (cfg : Config) (now : ℕ)
      → validate cfg ≡ []
      → orphans (build new_limiter opens cfg now) ≡ (
          if cfg.output.enabled
            && opens cfg.output.file
            && not (is_empty cfg.output.pcap_file)
            && not (opens cfg.output.pcap_file)
          then cfg.output.file ∷ []
          else [])
  unfolding orphans build with_pcap_writer held unheld one_of
  orphans-build cfg now v =
      let (e, made, w, b) = new_engine-validate new_limiter cfg now v in
      elim (Bool-cases cfg.output.enabled) [
        | inl on ↦ elim (Bool-cases (opens cfg.output.file)) [
          | inr no_file ↦ simp (build, made, on, no_file)
          | inl file ↦ elim (Bool-cases (is_empty cfg.output.pcap_file)) [
            | inl none_asked ↦
                simp (build, made, on, file, none_asked, text_eq_refl cfg.output.file)
            | inr asked ↦ elim (Bool-cases (opens cfg.output.pcap_file)) [
              | inl opened ↦ simp (
                build,
                made,
                on,
                file,
                asked,
                opened,
                text_eq_refl cfg.output.file,
                text_eq_refl cfg.output.pcap_file,
                or_true,
              )
              | inr shut ↦ simp (build, made, on, file, asked, shut)
            ]
          ]
        ]
        | inr off ↦ elim (Bool-cases (is_empty cfg.output.pcap_file)) [
          | inl none_asked ↦ simp (build, made, off, none_asked)
          | inr asked ↦ elim (Bool-cases (opens cfg.output.pcap_file)) [
            | inl opened ↦ simp (build, made, off, asked, opened, text_eq_refl cfg.output.pcap_file)
            | inr shut ↦ simp (build, made, off, asked, shut)
          ]
        ]
      ]
