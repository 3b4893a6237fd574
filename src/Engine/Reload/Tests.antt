-- ===== src/Engine/Reload/Tests.antt =====
-- Reloads of the sample configuration, and the theorems at them.
use sendit.Prelude.{ℕ, ◌≡◌, refl, true, [], ◌∷◌, ok, err, Option, some, none}
use sendit.Prelude.Int.{pos, ◌+ℤ◌, ◌-ℤ◌, ◌*ℤ◌}
use sendit.Prelude.Text.{codes, text_eq}
use sendit.Config.Schema.{Micro, Config, whole}
use sendit.Config.Samples.{plain_config, plain_pacing, web, name_server}
use sendit.Task.Selector.{Selector, SelectorError, no_targets, new_selector}
use sendit.Engine.Scheduler.{new_scheduler, rate_limited_mode, human_mode}
use sendit.Engine.Reload.{engine_with, Engine, registry_from, backoff_from, new_engine, reload}
use sendit.Config.Validate.{validate}
use sendit.Engine.Reload.Laws.{reload-ok, reload-reload}

abbrev new_limiter : Micro → ℕ → ℕ → Micro
new_limiter rpm per burst = rpm

abbrev limited_config : Config
limited_config = record plain_config {
  pacing = record plain_pacing { mode = codes "rate_limited"; requests_per_minute = whole 60 };
}

abbrev no_targets_config : Config
no_targets_config = record plain_config { targets = [] }

-- The table of the two targets of the samples.
abbrev two_slots : Selector
two_slots = record {
  targets = web ∷ name_server ∷ [];
  alias = 0 ∷ 0 ∷ [];
  prob = pos 4 ∷ pos 2 ∷ [];
  n = 2;
  one = pos 4;
}

abbrev engine_of : Config → Engine Micro
unfolding engine_with
engine_of cfg = engine_with new_limiter cfg 0 two_slots

starts : new_engine new_limiter plain_config 0 ≡ ok (engine_of plain_config)
unfolding new_engine new_selector ◌+ℤ◌ ◌-ℤ◌ ◌*ℤ◌
starts = refl

fails : new_engine new_limiter no_targets_config 0 ≡ err no_targets
unfolding new_engine new_selector
fails = refl

-- The engine of another configuration, reloaded.
abbrev reloaded : Engine Micro × Option SelectorError
reloaded = reload new_limiter (engine_of limited_config) plain_config

reload-ok_example :
    (reloaded.1 ≡ none)
    × (reloaded.0.selector ≡ two_slots)
    × (reloaded.0.rl ≡ registry_from Micro plain_config)
    × (reloaded.0.backoff ≡ backoff_from plain_config)
    × (reloaded.0.cfg ≡ plain_config)
    × (reloaded.0.pool ≡ (engine_of limited_config).pool)
    × (reloaded.0.monitor ≡ (engine_of limited_config).monitor)
unfolding engine_of engine_with registry_from backoff_from
reload-ok_example =
    reload-ok new_limiter (engine_of limited_config) plain_config 0 (engine_of plain_config) starts

is_limited :
    text_eq (new_scheduler new_limiter limited_config.pacing 0).cfg.mode rate_limited_mode ≡ true
unfolding new_scheduler text_eq
is_limited = refl

is_limited_config : text_eq limited_config.pacing.mode rate_limited_mode ≡ true
unfolding text_eq
is_limited_config = refl

is_human : text_eq plain_config.pacing.mode human_mode ≡ true
unfolding text_eq
is_human = refl

reload-reload_example :
    (reloaded.0.scheduler ≡ new_scheduler new_limiter limited_config.pacing 0)
    × ((reload new_limiter reloaded.0 plain_config).0.scheduler
        ≡ record (new_scheduler new_limiter limited_config.pacing 0) {
          limiter = some (whole 20);
          active_rpm = some (whole 20);
        })
unfolding engine_of engine_with new_scheduler
reload-reload_example =
    reload-reload new_limiter (engine_of limited_config) (engine_of plain_config) plain_config 0
      starts is_limited is_limited_config is_human

accepted : validate plain_config ≡ []
unfolding validate
accepted = refl
