-- ===== src/Engine/Reload.antt =====
-- internal/engine/engine.go: `New` and `Reload`, at the parts of an `Engine` that they set.
-- The drivers, the metrics and the writers are left out: `Reload` does not touch them. The counts
-- of the configuration are natural numbers, as `validate` makes sure of.
pub mod Laws
pub mod Validated
mod Tests
use sendit.Prelude.{
  ℕ, List, [], ◌∷◌, Result, ok, err, Option, some, none, if◌then◌else◌, Bool, true, false, not,
}
use sendit.Prelude.Int.{pos_part}
use sendit.Prelude.Text.{Text, text_eq, one_of}
use sendit.Config.Schema.{Micro, Config, TargetConfig}
use sendit.Task.Selector.{Selector, SelectorError, new_selector}
use sendit.Ratelimit.Registry.{Registry, new_registry, per_domain_from}
use sendit.Ratelimit.Backoff.{BackoffRegistry, new_backoff_registry}
use sendit.Resource.Monitor.{Monitor, new_monitor}
use sendit.Engine.Pool.{Pool, new_pool}
use sendit.Engine.Scheduler.{Scheduler, new_scheduler, update_pacing}

pub record Engine (L : Type 0) : Type 0 where
  pub cfg : Config
  pub pool : Pool
  pub scheduler : Scheduler L
  pub selector : Selector
  pub rl : Registry L
  pub backoff : BackoffRegistry
  pub monitor : Monitor

unfoldable pub backoff_from : Config → BackoffRegistry
unfolding new_backoff_registry
backoff_from cfg =
    new_backoff_registry (pos_part cfg.backoff.initial_ms) (pos_part cfg.backoff.max_ms)
      (pos_part cfg.backoff.multiplier) (pos_part cfg.backoff.max_attempts)

unfoldable pub registry_from : (L : Type 0) → Config → Registry L
unfolding new_registry per_domain_from
registry_from L cfg =
    new_registry L cfg.rate_limits.default_rps (per_domain_from [] cfg.rate_limits.per_domain)

abbrev pub urls : List TargetConfig → List Text
urls [] = []
urls (t ∷ ts) = t.url ∷ urls ts

-- One loop of `logTargetsDiff`: the URLs of `ts` that `known` does not have, in order.
unfoldable pub missing : List Text → List TargetConfig → List Text
unfolding one_of
missing known [] = []
missing known (t ∷ ts) = if one_of t.url known then missing known ts else t.url ∷ missing known ts

-- `logTargetsDiff`: the URLs that it logs as added, and those as removed.
unfoldable pub log_targets_diff : List TargetConfig → List TargetConfig → List Text × List Text
unfolding missing
log_targets_diff old new = (missing (urls old) new, missing (urls new) old)

module _ {L : Type 0} (new_limiter : Micro → ℕ → ℕ → L) where
  -- The literal and the stores of `New`, at the time `now`.
  unfoldable pub engine_with : Config → ℕ → Selector → Engine L
  unfolding new_pool new_scheduler new_monitor registry_from backoff_from
  engine_with cfg now sel = record {
    cfg = cfg;
    pool = new_pool (pos_part cfg.limits.max_workers) (pos_part cfg.limits.max_browser_workers);
    scheduler = new_scheduler new_limiter cfg.pacing now;
    selector = sel;
    rl = registry_from L cfg;
    backoff = backoff_from cfg;
    monitor = new_monitor cfg.limits.cpu_threshold_pct cfg.limits.memory_threshold_mb;
  }

  -- `New`.
  unfoldable pub new_engine : Config → ℕ → Result SelectorError (Engine L)
  unfolding new_selector engine_with
  new_engine cfg now = elim (new_selector cfg.targets) [
    | err e ↦ err e
    | ok sel ↦ ok (engine_with cfg now sel)
  ]

  -- `Reload`: the engine as it is left, and the error if there is one.
  unfoldable pub reload : Engine L → Config → Engine L × Option SelectorError
  unfolding new_selector update_pacing registry_from backoff_from text_eq
  reload e cfg = elim (new_selector cfg.targets) [
    | err e' ↦ (e, some e')
    | ok sel ↦ (
      record e {
        selector = sel;
        rl = registry_from L cfg;
        backoff = backoff_from cfg;
        scheduler =
            if text_eq e.cfg.pacing.mode cfg.pacing.mode
            then update_pacing new_limiter e.scheduler cfg.pacing
            else e.scheduler;
        cfg = cfg;
      },
      none,
    )
  ]
