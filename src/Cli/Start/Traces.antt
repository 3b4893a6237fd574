-- ===== src/Cli/Start/Traces.antt =====
-- cmd/sendit/main.go: what `startCmd` does, and what it never does.
use sendit.Prelude.{
  ℕ, ◌≡◌, ◌⊎◌, refl, Bool, true, false, ◌&&◌, List, [], ◌∷◌, ◌++◌, some, ap, ◌∙◌, All, All-append,
  Bool-cases, Result-cases, inl, inr, arith,
}
use sendit.Prelude.Int.{ℤ, pos, ◌≤ℤ◌, ltb_ℤ, eqb_ℤ}
use sendit.Prelude.Text.{Text, text_eq}
use sendit.Config.Schema.{Micro, MetricsConfig, Config}
use sendit.Config.Load.{Files, load}
use sendit.Engine.Build.{build}
use sendit.Cli.Start.{
  StartFlags, Effect, print_dry_run, init_logger, write_pid, remove_pid, serve_http, run, run_tui,
  burst_mode, with_capture, deadline, with_pid_file, serving, run_engine, start_engine, start,
}

-- A run of a configuration in the mode "burst" ends by itself.
unfoldable pub IsBounded : Effect → Type 0
unfolding text_eq
IsBounded (run cfg d) = text_eq cfg.pacing.mode burst_mode ≡ true → (t : ℤ) × (d ≡ some t)
IsBounded (run_tui cfg d) = text_eq cfg.pacing.mode burst_mode ≡ true → (t : ℤ) × (d ≡ some t)
IsBounded _ = Unit {0}

-- What touches the PID file.
unfoldable pub pids : List Effect → List Effect
pids [] = []
pids (write_pid p ∷ es) = write_pid p ∷ pids es
pids (remove_pid p ∷ es) = remove_pid p ∷ pids es
pids (_ ∷ es) = pids es

pids-append : (xs ys : List Effect) → pids (xs ++ ys) ≡ pids xs ++ pids ys
unfolding pids
pids-append [] ys = refl
pids-append (print_dry_run c ∷ xs) ys = pids-append xs ys
pids-append (init_logger l f ∷ xs) ys = pids-append xs ys
pids-append (write_pid p ∷ xs) ys = ap (◌∷◌ (write_pid p)) (pids-append xs ys)
pids-append (remove_pid p ∷ xs) ys = ap (◌∷◌ (remove_pid p)) (pids-append xs ys)
pids-append (serve_http b p ∷ xs) ys = pids-append xs ys
pids-append (run c d ∷ xs) ys = pids-append xs ys
pids-append (run_tui c d ∷ xs) ys = pids-append xs ys

pids-serving : (m : MetricsConfig) → pids (serving m) ≡ []
unfolding pids serving
pids-serving m = elim (Bool-cases m.enabled) [
  | inl on ↦ simp (on, serving)
  | inr off ↦ simp (off, serving)
]

-- Nothing, or the file written at the start and removed at the end.
abbrev pub pid_file_of : Bool → Text → List Effect
pid_file_of true path = []
pid_file_of false path = write_pid path ∷ remove_pid path ∷ []

pids-with_pid_file :
    (foreground : Bool) (path : Text) (es : List Effect)
    → pids es ≡ []
    → pids (with_pid_file foreground path es) ≡ pid_file_of foreground path
unfolding pids with_pid_file
pids-with_pid_file true path es h = h
pids-with_pid_file false path es h =
    ap (◌∷◌ (write_pid path)) (pids-append es (remove_pid path ∷ []) ∙ rw h refl)

with_pid_file-IsBounded :
    (foreground : Bool) (path : Text) (es : List Effect)
    → All IsBounded es
    → All IsBounded (with_pid_file foreground path es)
unfolding with_pid_file IsBounded
with_pid_file-IsBounded true path es h = h
with_pid_file-IsBounded false path es h =
    (tt, All-append IsBounded es (remove_pid path ∷ []) h (tt, tt))

serving-IsBounded : (m : MetricsConfig) → All IsBounded (serving m)
unfolding serving IsBounded
serving-IsBounded m = elim (Bool-cases m.enabled) [
  | inl on ↦ simp (on, serving) (tt, tt)
  | inr off ↦ simp (off, serving) tt
]

module _ {L : Type 0} (new_limiter : Micro → ℕ → ℕ → L) (opens : Text → Bool)
    (is_terminal : Bool) where
  deadline-burst :
      (cfg : Config) (d : ℤ)
      → pos 0 ≤ℤ d
      → (text_eq cfg.pacing.mode burst_mode && eqb_ℤ d (pos 0)) ≡ false
      → text_eq cfg.pacing.mode burst_mode ≡ true
      → (t : ℤ) × (deadline d ≡ some t)
  unfolding deadline
  deadline-burst cfg d nonneg given burst =
      let later : ltb_ℤ (pos 0) d ≡ true = ground (arith, rw burst at given) in (d, rw later refl)

  run_engine-IsBounded :
      (flags : StartFlags) (cfg : Config) (now : ℕ)
      → (text_eq cfg.pacing.mode burst_mode ≡ true → (t : ℤ) × (deadline flags.duration ≡ some t))
      → All IsBounded (run_engine new_limiter opens is_terminal flags cfg now).0
  unfolding run_engine IsBounded
  run_engine-IsBounded flags cfg now h = elim (Result-cases (build new_limiter opens cfg now).1) [
    | inl (why, bad) ↦ rw (bad, run_engine) tt
    | inr (b, good) ↦ elim (Bool-cases (flags.tui && is_terminal)) [
      | inl shown ↦ rw (good, shown, run_engine) (h, tt)
      | inr plain ↦ rw (good, plain, run_engine) (h, tt)
    ]
  ]

  start_engine-IsBounded :
      (flags : StartFlags) (cfg : Config) (now : ℕ)
      → All IsBounded (run_engine new_limiter opens is_terminal flags cfg now).0
      → All IsBounded (start_engine new_limiter opens is_terminal flags cfg now).0
  unfolding start_engine IsBounded
  start_engine-IsBounded flags cfg now h = (
    tt,
    with_pid_file-IsBounded flags.foreground cfg.daemon.pid_file _
        (All-append IsBounded (serving cfg.metrics) _ (serving-IsBounded cfg.metrics) h),
  )

  -- With a duration that is not negative, each run that `start` begins of a configuration in the mode "burst" has a
  -- deadline.
  pub start-IsBounded :
      (files : Files) (flags : StartFlags) (now : ℕ)
      → pos 0 ≤ℤ flags.duration
      → All IsBounded (start new_limiter opens is_terminal files flags now).0
  unfolding start IsBounded
  start-IsBounded files flags now nonneg = elim (Result-cases (load files flags.config_path)) [
    | inl (why, bad) ↦ rw (bad, start) tt
    | inr (loaded, good) ↦
        let cfg : Config = with_capture flags.capture_path loaded in
        elim (Bool-cases (text_eq cfg.pacing.mode burst_mode && eqb_ℤ flags.duration (pos 0))) [
          | inl endless ↦ rw (good, endless, start) tt
          | inr given ↦ elim (Bool-cases flags.dry_run) [
            | inl dry ↦ rw (good, given, dry, start) (tt, tt)
            | inr wet ↦
                rw (good, given, wet, start)
                  (start_engine-IsBounded flags cfg now (
                    run_engine-IsBounded flags cfg now
                      (deadline-burst cfg flags.duration nonneg given)))
          ]
        ]
  ]

  pids-run_engine :
      (flags : StartFlags) (cfg : Config) (now : ℕ)
      → pids (run_engine new_limiter opens is_terminal flags cfg now).0 ≡ []
  unfolding run_engine pids
  pids-run_engine flags cfg now = elim (Result-cases (build new_limiter opens cfg now).1) [
    | inl (why, bad) ↦ rw (bad, run_engine) refl
    | inr (b, good) ↦ elim (Bool-cases (flags.tui && is_terminal)) [
      | inl shown ↦ rw (good, shown, run_engine) refl
      | inr plain ↦ rw (good, plain, run_engine) refl
    ]
  ]

  pids-start_engine :
      (flags : StartFlags) (cfg : Config) (now : ℕ)
      → pids (start_engine new_limiter opens is_terminal flags cfg now).0
        ≡ pid_file_of flags.foreground cfg.daemon.pid_file
  unfolding start_engine pids
  pids-start_engine flags cfg now = pids-with_pid_file flags.foreground cfg.daemon.pid_file _ (
      pids-append (serving cfg.metrics) _
      ∙ rw (pids-serving cfg.metrics, pids-run_engine flags cfg now) refl)

  -- `start` either leaves the PID file alone, or writes it once and then removes it, also if the engine cannot be
  -- made; it writes it only if it is not in the foreground and no dry run.
  pub pids-start :
      (files : Files) (flags : StartFlags) (now : ℕ)
      → (pids (start new_limiter opens is_terminal files flags now).0 ≡ [])
        ⊎ ((path : Text) × (pids (start new_limiter opens is_terminal files flags now).0
              ≡ write_pid path ∷ remove_pid path ∷ [])
            × (flags.foreground ≡ false)
            × (flags.dry_run ≡ false))
  unfolding start pids
  pids-start files flags now = elim (Result-cases (load files flags.config_path)) [
    | inl (why, bad) ↦ inl (rw (bad, start) refl)
    | inr (loaded, good) ↦
        let cfg : Config = with_capture flags.capture_path loaded in
        elim (Bool-cases (text_eq cfg.pacing.mode burst_mode && eqb_ℤ flags.duration (pos 0))) [
          | inl endless ↦ inl (rw (good, endless, start) refl)
          | inr given ↦ elim (Bool-cases flags.dry_run) [
            | inl dry ↦ inl (rw (good, given, dry, start) refl)
            | inr wet ↦
                let same = pids-start_engine flags cfg now in
                elim (Bool-cases flags.foreground) [
                  | inl here ↦ inl (
                      simp (good, given, wet, start)
                        (same ∙ ap (λ b. pid_file_of b cfg.daemon.pid_file) here))
                  | inr there ↦ inr (
                    cfg.daemon.pid_file,
                    simp (good, given, wet, start)
                        (same ∙ ap (λ b. pid_file_of b cfg.daemon.pid_file) there),
                    there,
                    wet,
                  )
                ]
          ]
        ]
  ]
