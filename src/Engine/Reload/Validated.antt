-- ===== src/Engine/Reload/Validated.antt =====
-- internal/config/config.go and internal/engine/engine.go: an engine made of a configuration in which
-- `validate` finds nothing.
use sendit.Prelude.{ℕ, ◌≢◌, ◌<◌, ◌≡◌, refl, List, [], ◌∷◌, ok, All, arith}
use sendit.Prelude.Int.{pos, pos_part, ◌≤ℤ◌, ◌<ℤ◌, neg_part_zero, int_laws}
use sendit.Config.Schema.{Micro, Config, TargetConfig}
use sendit.Config.Validate.{validate}
use sendit.Config.Validate.Accepted.{validate-Accepted}
use sendit.Task.Selector.{Selector, weights, total_weight, new_selector}
use sendit.Task.Selector.Exact.{new_selector_iff}
use sendit.Ratelimit.Backoff.{new_backoff_registry, jittered_ms, draw_range}
use sendit.Ratelimit.Backoff.Jitter.{jittered_ms_bounds}
use sendit.Engine.Pool.{new_pool}
use sendit.Engine.Reload.{Engine, engine_with, new_engine, backoff_from}

total_nonneg :
    (ts : List TargetConfig) → All (λ t. pos 0 <ℤ t.weight) ts → pos 0 ≤ℤ total_weight (weights ts)
unfolding total_weight
total_nonneg [] h = omega arith
total_nonneg (t ∷ ts) h = omega (int_laws, h.0, total_nonneg ts h.1)

total_positive :
    (ts : List TargetConfig)
    → ts ≢ []
    → All (λ t. pos 0 <ℤ t.weight) ts
    → pos 0 <ℤ total_weight (weights ts)
unfolding total_weight
total_positive [] given h = absurd (given refl)
total_positive (t ∷ ts) given h = omega (int_laws, h.0, total_nonneg ts h.1)

new_engine-ok :
    {L : Type 0} (new_limiter : Micro → ℕ → ℕ → L) (cfg : Config) (now : ℕ) (sel : Selector)
    → new_selector cfg.targets ≡ ok sel
    → new_engine new_limiter cfg now ≡ ok (engine_with new_limiter cfg now sel)
unfolding new_engine
new_engine-ok new_limiter cfg now sel h = ground (arith, h)

-- Of a configuration in which `validate` finds nothing, `New` makes an engine, and its pool has
-- a worker and a browser worker.
pub new_engine-validate :
    {L : Type 0} (new_limiter : Micro → ℕ → ℕ → L) (cfg : Config) (now : ℕ)
    → validate cfg ≡ []
    → (e : Engine L) × (new_engine new_limiter cfg now ≡ ok e)
      × (0 < e.pool.max_workers)
      × (0 < e.pool.max_browser_workers)
unfolding engine_with new_pool
new_engine-validate new_limiter cfg now v =
    let a = validate-Accepted cfg v in
    let (sel, made) =
      (new_selector_iff cfg.targets).1
        (a.targets, total_positive cfg.targets a.targets a.weights) in
    (
      engine_with new_limiter cfg now sel,
      new_engine-ok new_limiter cfg now sel made,
      omega (arith, a.workers),
      omega (arith, a.workers),
    )

backoff_from_fields :
    (cfg : Config)
    → ((backoff_from cfg).initial_ms ≡ pos_part cfg.backoff.initial_ms)
      × ((backoff_from cfg).max_ms ≡ pos_part cfg.backoff.max_ms)
      × ((backoff_from cfg).multiplier ≡ pos_part cfg.backoff.multiplier)
unfolding backoff_from new_backoff_registry
backoff_from_fields cfg = (refl, refl, refl)

-- With a configuration in which `validate` finds nothing, and a draw below 1, the milliseconds of every delay
-- after an error are between `initial_ms` and `max_ms`, whatever the attempt.
pub jittered_ms-validate :
    (cfg : Config) (attempt r : ℕ)
    → validate cfg ≡ []
    → r < draw_range
    → (cfg.backoff.initial_ms ≤ℤ pos (jittered_ms (backoff_from cfg) attempt r))
      × (pos (jittered_ms (backoff_from cfg) attempt r) ≤ℤ cfg.backoff.max_ms)
jittered_ms-validate cfg attempt r v h =
    let a = validate-Accepted cfg v in
    let same = backoff_from_fields cfg in
    let low = neg_part_zero cfg.backoff.initial_ms (omega (arith, a.backoff)) in
    let high = neg_part_zero cfg.backoff.max_ms (omega (arith, a.backoff)) in
    let bounds =
      jittered_ms_bounds (backoff_from cfg) attempt r (omega (arith, same, low, high, a.backoff))
        (omega (arith, same, low, high, a.backoff)) h in
    (
      omega (arith, bounds, same, low, high, a.backoff),
      omega (arith, bounds, same, low, high, a.backoff),
    )
