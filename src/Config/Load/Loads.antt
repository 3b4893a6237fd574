-- ===== src/Config/Load/Loads.antt =====
-- internal/config/config.go: what `Load` returns.
use sendit.Prelude.{
  ◌≡◌, ◌⊎◌, refl, true, false, some, List, [], ◌++◌, append-nil, ok, Bool-cases, Option-cases,
  Result-cases, List-cases, inl, inr, ok-injective, subst, sym, ap, ◌∙◌,
}
use sendit.Prelude.Text.{Text}
use sendit.Config.Schema.{TargetConfig, Config}
use sendit.Config.Validate.{is_empty, validate}
use sendit.Config.TargetsFile.{load_lines}
use sendit.Config.TargetsFile.Loaded.{Lists, load_lines-Lists}
use sendit.Config.Load.{Files, set_defaults, load_targets_file, accept, load}

accept-ok : (c d : Config) → accept c ≡ ok d → (validate c ≡ []) × (c ≡ d)
unfolding accept
accept-ok c d e = elim (List-cases (validate c)) [
  | inl fine ↦ (fine, ok-injective c d (rw (fine, accept) at e))
  | inr (p, ps, bad) ↦ absurd (cc (rw (bad, accept) at e))
]

module _ (files : Files) where
  -- What `loadTargetsFile` adds to a configuration: nothing if it names no targets file, and else the targets of the
  -- lines of that file.
  pub Adds : Config → List TargetConfig → Type 0
  Adds inline new =
      ((is_empty inline.targets_file ≡ true) × (new ≡ []))
      ⊎ ((is_empty inline.targets_file ≡ false)
          × ((lines : List Text) × (files.scan inline.targets_file ≡ some (lines, false))
              × Lists inline.target_defaults lines new))

  abbrev pub Extends : Config → Config → Type 0
  Extends inline cfg =
      (new : List TargetConfig) × (cfg ≡ record inline { targets = inline.targets ++ new })
      × Adds inline new

  load_targets_file-Extends :
      (inline cfg : Config) → load_targets_file files inline ≡ ok cfg → Extends inline cfg
  unfolding load_targets_file Adds
  load_targets_file-Extends inline cfg e = elim (Bool-cases (is_empty inline.targets_file)) [
    | inl without ↦ (
      [],
      sym (ok-injective inline cfg (rw (without, load_targets_file) at e))
          ∙ ap (λ ts. record inline { targets = ts }) (sym (append-nil inline.targets)),
      inl (without, refl),
    )
    | inr with_file ↦ elim (Option-cases (files.scan inline.targets_file)) [
      | inl unopened ↦ absurd (cc (rw (with_file, unopened, load_targets_file) at e))
      | inr ((lines, failed), opened) ↦
          elim (Result-cases (load_lines inline.target_defaults failed 0 lines inline.targets)) [
            | inl (why, bad) ↦ absurd (cc (rw (with_file, opened, bad, load_targets_file) at e))
            | inr (ts, good) ↦
                let (new, shape, whole, found) =
                  load_lines-Lists inline.target_defaults failed 0 lines inline.targets ts good in
                (
                  new,
                  sym (
                        ok-injective (record inline { targets = ts }) cfg
                          (rw (with_file, opened, good, load_targets_file) at e))
                      ∙ ap (λ xs. record inline { targets = xs }) shape,
                  inr (with_file, (lines, opened ∙ ap (λ b. some (lines, b)) whole, found)),
                )
          ]
    ]
  ]

  -- What `Load` returns is what viper makes of the defaults and the file, and, if that names a targets file, behind its
  -- targets those of all lines of the targets file that are neither blank nor comments, in order, each with the URL, the
  -- type and the weight of its line and with the defaults for all else; `validate` finds nothing in it.
  pub load-ok :
      (path : Text) (cfg : Config)
      → load files path ≡ ok cfg
      → (validate cfg ≡ [])
        × ((inline : Config) × (files.unmarshal set_defaults path ≡ ok inline) × Extends inline cfg)
  unfolding load
  load-ok path cfg e = elim (Result-cases (files.unmarshal set_defaults path)) [
    | inl (why, bad) ↦ absurd (cc (rw (bad, load) at e))
    | inr (inline, read) ↦ elim (Result-cases (load_targets_file files inline)) [
      | inl (why, bad) ↦ absurd (cc (rw (read, bad, load) at e))
      | inr (full, good) ↦
          let (fine, same) = accept-ok full cfg (rw (read, good, load) at e) in
          (
            subst (λ c. validate c ≡ []) same fine,
            (
              inline,
              read,
              subst (Extends inline) same (load_targets_file-Extends inline full good),
            ),
          )
    ]
  ]
