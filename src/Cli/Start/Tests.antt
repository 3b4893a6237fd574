-- ===== src/Cli/Start/Tests.antt =====
-- cmd/sendit/main.go: starts of small configurations, and the theorems at them.
use sendit.Prelude.{
  ℕ, ◌≡◌, ◌⊎◌, refl, true, false, List, [], ◌∷◌, Option, none, some, ok, err, All, arith,
}
use sendit.Prelude.Int.{pos, negsuc, ◌+ℤ◌, ◌-ℤ◌, ◌*ℤ◌}
use sendit.Prelude.Text.{Text, codes}
use sendit.Config.Schema.{Micro, Config}
use sendit.Config.Samples.{plain_config, web, name_server}
use sendit.Config.Load.{Files, reading}
use sendit.Task.Selector.{Selector, new_selector}
use sendit.Engine.Reload.{Engine, engine_with, new_engine}
use sendit.Cli.Start.{
  StartFlags, Effect, init_logger, write_pid, remove_pid, run, StartError, no_duration, start,
  on_sighups,
}
use sendit.Cli.Start.Traces.{IsBounded, pids, start-IsBounded, pids-start}
use sendit.Cli.Start.Signals.{InForce, last_loaded, on_sighups-InForce}

abbrev new_limiter : Micro → ℕ → ℕ → Micro
new_limiter rpm per burst = rpm

abbrev burst_config : Config
burst_config = record plain_config { pacing = record plain_config.pacing { mode = codes "burst" } }

abbrev burst_files : Files
burst_files = record { unmarshal = λ d path. ok burst_config; scan = λ path. none }

abbrev flags : StartFlags
flags = record {
  config_path = codes "a.yaml";
  foreground = false;
  log_level = [];
  dry_run = false;
  capture_path = [];
  duration = pos 300_000_000_000;
  tui = false;
}

abbrev begin : StartFlags → List Effect × Option StartError
begin f = start new_limiter (λ path. true) false burst_files f 0

runs :
    (begin flags).0
    ≡ init_logger (codes "info") (codes "text")
      ∷ write_pid (codes "/tmp/sendit.pid")
      ∷ run burst_config (some (pos 300_000_000_000))
      ∷ remove_pid (codes "/tmp/sendit.pid")
      ∷ []
unfolding start ◌+ℤ◌ ◌-ℤ◌ ◌*ℤ◌
runs = refl

refuses : begin (record flags { duration = pos 0 }) ≡ ([], some no_duration)
unfolding start
refuses = refl

-- With the negative duration of `--duration -5m` a burst has no end.
endless :
    (begin (record flags { duration = negsuc 299_999_999_999; foreground = true })).0
    ≡ init_logger (codes "info") (codes "text") ∷ run burst_config none ∷ []
unfolding start ◌+ℤ◌ ◌-ℤ◌ ◌*ℤ◌
endless = refl

start-IsBounded_example : All IsBounded (begin flags).0
start-IsBounded_example =
    start-IsBounded new_limiter (λ path. true) false burst_files flags 0 (omega arith)

pids-start_example :
    (pids (begin flags).0 ≡ [])
    ⊎ ((path : Text) × (pids (begin flags).0 ≡ write_pid path ∷ remove_pid path ∷ [])
        × (flags.foreground ≡ false)
        × (flags.dry_run ≡ false))
pids-start_example = pids-start new_limiter (λ path. true) false burst_files flags 0

abbrev two_slots : Selector
two_slots = record {
  targets = web ∷ name_server ∷ [];
  alias = 0 ∷ 0 ∷ [];
  prob = pos 4 ∷ pos 2 ∷ [];
  n = 2;
  one = pos 4;
}

abbrev engine : Engine Micro
unfolding engine_with
engine = engine_with new_limiter plain_config 0 two_slots

makes : new_engine new_limiter plain_config 0 ≡ ok engine
unfolding new_engine new_selector ◌+ℤ◌ ◌-ℤ◌ ◌*ℤ◌
makes = refl

abbrev no_files : Files
no_files = record { unmarshal = λ d path. err reading; scan = λ path. none }

on_sighups-InForce_example :
    InForce new_limiter 0
      (last_loaded (codes "a.yaml") plain_config (no_files ∷ burst_files ∷ no_files ∷ []))
      (on_sighups new_limiter (codes "a.yaml") engine (no_files ∷ burst_files ∷ no_files ∷ []))
    × ((on_sighups new_limiter
          (codes "a.yaml")
          engine
          (no_files ∷ burst_files ∷ no_files ∷ [])).pool
        ≡ engine.pool)
    × ((on_sighups new_limiter
          (codes "a.yaml")
          engine
          (no_files ∷ burst_files ∷ no_files ∷ [])).monitor
        ≡ engine.monitor)
unfolding engine
on_sighups-InForce_example =
    on_sighups-InForce new_limiter (codes "a.yaml") 0 plain_config engine
      (no_files ∷ burst_files ∷ no_files ∷ [])
      (record {
        fresh = engine;
        made = makes;
        selector = refl;
        rl = refl;
        backoff = refl;
        configured = refl;
      })
