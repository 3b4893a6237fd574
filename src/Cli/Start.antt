-- ===== src/Cli/Start.antt =====
-- cmd/sendit/main.go: `startCmd`, as the list of what it does in order, and the loop that reloads on SIGHUP.
-- A duration is in nanoseconds. The signals that stop the process, the terminal and the log lines are left out; a
-- `defer` stands at the end of the list. The disk and the limiters are parameters.
pub mod Traces
pub mod Signals
mod Tests
use sendit.Prelude.{
  ℕ, Bool, true, false, not, ◌&&◌, List, [], ◌∷◌, ◌++◌, Option, none, some, if◌then◌else◌, Result,
  ok, err,
}
use sendit.Prelude.Int.{ℤ, pos, ltb_ℤ, eqb_ℤ}
use sendit.Prelude.Text.{Text, codes, text_eq}
use sendit.Config.Schema.{Micro, MetricsConfig, Config}
use sendit.Config.Validate.{is_empty}
use sendit.Config.Load.{Files, ConfigError, load}
use sendit.Engine.Reload.{Engine, reload}
use sendit.Engine.Build.{BuildError, Built, build}

-- The flags.
pub record StartFlags : Type 0 where
  pub config_path : Text
  pub foreground : Bool
  pub log_level : Text
  pub dry_run : Bool
  pub capture_path : Text
  pub duration : ℤ
  pub tui : Bool

pub data Effect : Type 0 where
  print_dry_run : Config → Effect
  init_logger : (level format : Text) → Effect
  write_pid remove_pid : (path : Text) → Effect
  serve_http : (bind_address : Text) (port : ℤ) → Effect
  run run_tui : (cfg : Config) (deadline : Option ℤ) → Effect

pub data StartError : Type 0 where
  bad_config : ConfigError → StartError
  no_duration : StartError
  no_engine : BuildError → StartError

abbrev pub burst_mode : Text
burst_mode = codes "burst"

-- The configuration with the capture that a flag asks for.
unfoldable pub with_capture : Text → Config → Config
unfolding is_empty
with_capture path cfg =
    if is_empty path then cfg else record cfg { output = record cfg.output { pcap_file = path } }

-- The timeout of the context, if it has one.
unfoldable pub deadline : ℤ → Option ℤ
deadline duration = if ltb_ℤ (pos 0) duration then some duration else none

-- The effects between `writePID` and the deferred `os.Remove`, in the foreground or not.
unfoldable pub with_pid_file : Bool → Text → List Effect → List Effect
with_pid_file true path es = es
with_pid_file false path es = write_pid path ∷ (es ++ (remove_pid path ∷ []))

unfoldable pub serving : MetricsConfig → List Effect
serving m = if m.enabled then serve_http m.bind_address m.prometheus_port ∷ [] else []

module _ {L : Type 0} (new_limiter : Micro → ℕ → ℕ → L) (opens : Text → Bool)
    (is_terminal : Bool) where
  -- From `engine.New` on.
  unfoldable pub run_engine : StartFlags → Config → ℕ → List Effect × Option StartError
  unfolding build deadline
  run_engine flags cfg now = elim ((build new_limiter opens cfg now).1) [
    | err e ↦ ([], some (no_engine e))
    | ok b ↦
        if flags.tui && is_terminal
        then (run_tui cfg (deadline flags.duration) ∷ [], none)
        else (run cfg (deadline flags.duration) ∷ [], none)
  ]

  -- From `initLogger` on.
  unfoldable pub start_engine : StartFlags → Config → ℕ → List Effect × Option StartError
  unfolding is_empty run_engine with_pid_file serving
  start_engine flags cfg now =
      let level = if is_empty flags.log_level then cfg.daemon.log_level else flags.log_level in
      let ran = run_engine flags cfg now in
      (
        init_logger level cfg.daemon.log_format
            ∷ with_pid_file flags.foreground cfg.daemon.pid_file (serving cfg.metrics ++ ran.0),
        ran.1,
      )

  -- The `RunE` of `startCmd`.
  unfoldable pub start : Files → StartFlags → ℕ → List Effect × Option StartError
  unfolding load with_capture text_eq start_engine
  start files flags now = elim (load files flags.config_path) [
    | err e ↦ ([], some (bad_config e))
    | ok loaded ↦
        let cfg = with_capture flags.capture_path loaded in
        if text_eq cfg.pacing.mode burst_mode && eqb_ℤ flags.duration (pos 0)
        then ([], some no_duration)
        else if flags.dry_run
        then (print_dry_run cfg ∷ [], none)
        else start_engine flags cfg now
  ]

module _ {L : Type 0} (new_limiter : Micro → ℕ → ℕ → L) (path : Text) where
  -- What a SIGHUP does to the engine, with the files as they are by then.
  unfoldable pub on_sighup : Engine L → Files → Engine L
  unfolding load reload
  on_sighup e files = elim (load files path) [ err why ↦ e | ok cfg ↦ (reload new_limiter e cfg).0 ]

  unfoldable pub on_sighups : Engine L → List Files → Engine L
  unfolding on_sighup
  on_sighups e [] = e
  on_sighups e (files ∷ more) = on_sighups (on_sighup e files) more
