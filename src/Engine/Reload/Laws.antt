-- ===== src/Engine/Reload/Laws.antt =====
-- internal/engine/engine.go: `Reload` beside `New`.
use sendit.Prelude.{
  ℕ, none, some, ap, Bool-cases, inl, inr, ◌&&◌, ◌≡◌, refl, List, [], ◌∷◌, ok, err, some, none,
  true, false, not, arith,
}
use sendit.Prelude.Text.{Text, text_eq, text_eq_iff, text_eq_refl, one_of}
use sendit.Config.Schema.{Micro, Config, TargetConfig}
use sendit.Task.Selector.{SelectorError}
use sendit.Engine.Scheduler.{update_pacing, human_mode, rate_limited_mode}
use sendit.Engine.Reload.{Engine, engine_with, new_engine, reload, urls, missing, log_targets_diff}

modes-differ :
    (a b : Text)
    → text_eq a rate_limited_mode ≡ true
    → text_eq b human_mode ≡ true
    → text_eq a b ≡ false
unfolding text_eq
modes-differ a b ha hb =
    rw ((text_eq_iff a rate_limited_mode).0 ha, (text_eq_iff b human_mode).0 hb) refl

not-human : (a : Text) → text_eq a rate_limited_mode ≡ true → text_eq a human_mode ≡ false
unfolding text_eq
not-human a h = rw ((text_eq_iff a rate_limited_mode).0 h) refl

module _ {L : Type 0} (new_limiter : Micro → ℕ → ℕ → L) where
  -- `Reload` fails exactly if `New` fails on the same configuration, with the same error, and then
  -- leaves the engine as it was.
  pub reload-err :
      (e : Engine L) (cfg : Config) (now : ℕ) (why : SelectorError)
      → new_engine new_limiter cfg now ≡ err why
      → reload new_limiter e cfg ≡ (e, some why)
  unfolding new_engine reload
  reload-err e cfg now why h = ground arith

  -- If `New` makes an engine `fresh` of a configuration, `Reload` of that configuration succeeds, and the
  -- engine has the selector, the registries and the configuration of `fresh`, with its own pool and
  -- monitor.
  pub reload-ok :
      (e : Engine L) (cfg : Config) (now : ℕ) (fresh : Engine L)
      → new_engine new_limiter cfg now ≡ ok fresh
      → ((reload new_limiter e cfg).1 ≡ none)
        × ((reload new_limiter e cfg).0.selector ≡ fresh.selector)
        × ((reload new_limiter e cfg).0.rl ≡ fresh.rl)
        × ((reload new_limiter e cfg).0.backoff ≡ fresh.backoff)
        × ((reload new_limiter e cfg).0.cfg ≡ cfg)
        × ((reload new_limiter e cfg).0.pool ≡ e.pool)
        × ((reload new_limiter e cfg).0.monitor ≡ e.monitor)
  unfolding new_engine engine_with reload
  reload-ok e cfg now fresh h = ground arith

  -- A second `Reload` of a configuration of another mode applies its pacing after all: an
  -- engine in the mode "rate_limited" takes the rate of a configuration in the mode "human".
  pub reload-reload :
      (e fresh : Engine L) (cfg : Config) (now : ℕ)
      → new_engine new_limiter cfg now ≡ ok fresh
      → text_eq e.scheduler.cfg.mode rate_limited_mode ≡ true
      → text_eq e.cfg.pacing.mode rate_limited_mode ≡ true
      → text_eq cfg.pacing.mode human_mode ≡ true
      → ((reload new_limiter e cfg).0.scheduler ≡ e.scheduler)
        × ((reload new_limiter (reload new_limiter e cfg).0 cfg).0.scheduler ≡ record e.scheduler {
          limiter = some (new_limiter cfg.pacing.requests_per_minute 60 1);
          active_rpm = some cfg.pacing.requests_per_minute;
        })
  unfolding new_engine reload update_pacing
  reload-reload e fresh cfg now h m m' m'' =
      let differs : text_eq e.cfg.pacing.mode cfg.pacing.mode ≡ false =
        modes-differ e.cfg.pacing.mode cfg.pacing.mode m' m'' in
      let kept : text_eq e.scheduler.cfg.mode human_mode ≡ false =
        not-human e.scheduler.cfg.mode m in
      ground (arith, differs, kept, text_eq_refl cfg.pacing.mode)

one_of-missing :
    (known : List Text) (ts : List TargetConfig) (url : Text)
    → one_of url (missing known ts) ≡ (one_of url (urls ts) && not (one_of url known))
unfolding missing one_of
one_of-missing known [] url = refl
one_of-missing known (t ∷ ts) url = elim (Bool-cases (text_eq t.url url)) [
  | inl same ↦ ground (
    arith,
    same,
    ap (λ u. one_of u known) ((text_eq_iff t.url url).0 same),
    one_of-missing known ts url,
  )
  | inr other ↦ ground (arith, other, one_of-missing known ts url)
]

-- `logTargetsDiff` logs a URL as added exactly if it is one of the new targets' and none of the
-- old ones', and as removed exactly the other way round.
pub one_of-log_targets_diff :
    (old new : List TargetConfig) (url : Text)
    → (one_of url (log_targets_diff old new).0
        ≡ (one_of url (urls new) && not (one_of url (urls old))))
      × (one_of url (log_targets_diff old new).1
          ≡ (one_of url (urls old) && not (one_of url (urls new))))
unfolding log_targets_diff
one_of-log_targets_diff old new url =
    (rw (one_of-missing (urls old) new url) refl, rw (one_of-missing (urls new) old url) refl)
