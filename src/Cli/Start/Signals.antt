-- ===== src/Cli/Start/Signals.antt =====
-- cmd/sendit/main.go: the engine that SIGHUPs leave.
use sendit.Prelude.{ℕ, ◌≡◌, refl, ◌∙◌, List, [], ◌∷◌, ok, err, Result-cases, inl, inr}
use sendit.Prelude.Text.{Text}
use sendit.Config.Schema.{Micro, Config}
use sendit.Config.Load.{Files, load}
use sendit.Config.Load.Loads.{load-ok}
use sendit.Engine.Reload.{Engine, new_engine, reload}
use sendit.Engine.Reload.Laws.{reload-ok}
use sendit.Engine.Reload.Validated.{new_engine-validate}
use sendit.Cli.Start.{on_sighup, on_sighups}

module _ (path : Text) where
  -- The last configuration that could be loaded.
  unfoldable pub last_loaded : Config → List Files → Config
  last_loaded cfg [] = cfg
  last_loaded cfg (files ∷ more) =
      last_loaded (elim (load files path) as (λ _. Config) [ err why ↦ cfg | ok new ↦ new ]) more

module _ {L : Type 0} (new_limiter : Micro → ℕ → ℕ → L) where
  -- The engine draws from the targets of the configuration, and keeps its rates and its backoff.
  pub record InForce (now : ℕ) (cfg : Config) (e : Engine L) : Type 0 where
    pub fresh : Engine L
    pub made : new_engine new_limiter cfg now ≡ ok fresh
    pub selector : e.selector ≡ fresh.selector
    pub rl : e.rl ≡ fresh.rl
    pub backoff : e.backoff ≡ fresh.backoff
    pub configured : e.cfg ≡ cfg

  reload-InForce :
      (now : ℕ) (e fresh : Engine L) (cfg : Config)
      → new_engine new_limiter cfg now ≡ ok fresh
      → InForce now cfg (reload new_limiter e cfg).0
  reload-InForce now e fresh cfg made =
      let (done, selector, rl, backoff, configured, pool, monitor) =
        reload-ok new_limiter e cfg now fresh made in
      record {
        fresh = fresh;
        made = made;
        selector = selector;
        rl = rl;
        backoff = backoff;
        configured = configured;
      }

  -- Whatever the files are when the SIGHUPs arrive, the engine works by the last configuration that could be loaded:
  -- its selector, its rate limits and its backoff are those that `New` makes of it, and its pool and its monitor are
  -- still those that it was made with.
  pub on_sighups-InForce :
      (path : Text) (now : ℕ) (cfg : Config) (e : Engine L) (fs : List Files)
      → InForce now cfg e
      → InForce now (last_loaded path cfg fs) (on_sighups new_limiter path e fs)
        × ((on_sighups new_limiter path e fs).pool ≡ e.pool)
        × ((on_sighups new_limiter path e fs).monitor ≡ e.monitor)
  unfolding on_sighups last_loaded on_sighup
  on_sighups-InForce path now cfg e [] h = (h, refl, refl)
  on_sighups-InForce path now cfg e (files ∷ more) h = elim (Result-cases (load files path)) [
    | inl (why, bad) ↦
        simp (bad, on_sighup, on_sighups, last_loaded) (on_sighups-InForce path now cfg e more h)
    | inr (new, good) ↦
        let fine = (load-ok files path new good).0 in
        let (fresh, made, workers, browsers) = new_engine-validate new_limiter new now fine in
        let (done, selector, rl, backoff, configured, pool, monitor) =
          reload-ok new_limiter e new now fresh made in
        let (force, pools, monitors) =
          on_sighups-InForce path now new (reload new_limiter e new).0 more
            (reload-InForce now e fresh new made) in
        simp (good, on_sighup, on_sighups, last_loaded) (force, pools ∙ pool, monitors ∙ monitor)
  ]
