-- ===== src/Config/Validate/Accepted.antt =====
-- internal/config/config.go: what the engine may rely on once `validate` has found nothing.
use sendit.Prelude.{
  ℕ, ◌+◌, ◌≡◌, ◌≢◌, refl, Bool, true, false, not, List, [], ◌∷◌, ◌++◌, All, Bool-cases, inl, inr,
}
use sendit.Prelude.Int.{pos, ◌≤ℤ◌, ◌<ℤ◌, leb_ℤ→lt, ltb_ℤ→ge}
use sendit.Prelude.Text.{one_of}
use sendit.Config.Schema.{whole, Config, TargetConfig}
use sendit.Config.Validate.{
  TargetProblem, kept, kinds, validate_target, at_target, validate_targets, backoff_checks,
  pacing_checks, limits_checks, validate, validate_auth, target_checks, count_checks,
}

append-nil_parts : {A : Type 0} (xs ys : List A) → xs ++ ys ≡ [] → (xs ≡ []) × (ys ≡ [])
append-nil_parts [] ys e = (refl, e)
append-nil_parts (x ∷ xs) ys e = cc

-- Every condition is false if nothing is kept.
pub kept-nil : {P : Type 0} (cs : List (Bool × P)) → kept cs ≡ [] → All (λ c. c.0 ≡ false) cs
unfolding kept
kept-nil [] e = tt
kept-nil (c ∷ cs) e = elim (Bool-cases c.0) [
  | inl on ↦ absurd (cc (rw on at e))
  | inr off ↦ (off, kept-nil cs (rw off at e))
]

at_target-nil : (i : ℕ) (ps : List TargetProblem) → at_target i ps ≡ [] → ps ≡ []
at_target-nil i [] e = refl
at_target-nil i (p ∷ ps) e = cc

target_found :
    (t : TargetConfig) → validate_target t ≡ [] → All (λ c. c.0 ≡ false) (target_checks t)
unfolding validate_target
target_found t e =
    let checks = append-nil_parts (kept (target_checks t) ++ _) (validate_auth t.auth) e in
    kept-nil (target_checks t) (append-nil_parts (kept (target_checks t)) _ checks.0).0

weight_positive : (t : TargetConfig) → validate_target t ≡ [] → pos 0 <ℤ t.weight
unfolding target_checks
weight_positive t e = leb_ℤ→lt t.weight (pos 0) (target_found t e).1.0

not-false : (b : Bool) → not b ≡ false → b ≡ true
not-false true e = refl
not-false false e = cc

kind_known : (t : TargetConfig) → validate_target t ≡ [] → one_of t.kind kinds ≡ true
unfolding target_checks
kind_known t e = not-false (one_of t.kind kinds) (target_found t e).1.1.0

validate_targets-All :
    (P : TargetConfig → Type 0)
    → ((t : TargetConfig) → validate_target t ≡ [] → P t)
    → (i : ℕ) (ts : List TargetConfig) → validate_targets i ts ≡ []
    → All P ts
unfolding validate_targets
validate_targets-All P found i [] e = tt
validate_targets-All P found i (t ∷ ts) e =
    let (here, rest) =
      append-nil_parts (at_target i (validate_target t)) (validate_targets (i + 1) ts) e in
    (
      found t (at_target-nil i (validate_target t) here),
      validate_targets-All P found (i + 1) ts rest,
    )

targets_given : (ts : List TargetConfig) → All (λ c. c.0 ≡ false) (count_checks ts) → ts ≢ []
targets_given [] h = cc h.0
targets_given (t ∷ ts) h = λ e. cc e

-- What the engine builds on.
pub record Accepted (cfg : Config) : Type 0 where
  pub targets : cfg.targets ≢ []
  pub weights : All (λ t. pos 0 <ℤ t.weight) cfg.targets
  pub known : All (λ t. one_of t.kind kinds ≡ true) cfg.targets
  pub workers : (pos 0 <ℤ cfg.limits.max_workers) × (pos 0 <ℤ cfg.limits.max_browser_workers)
  pub backoff :
      (pos 0 <ℤ cfg.backoff.initial_ms)
      × (cfg.backoff.initial_ms ≤ℤ cfg.backoff.max_ms)
      × (whole 1 <ℤ cfg.backoff.multiplier)
      × (pos 0 <ℤ cfg.backoff.max_attempts)
  pub delays :
      (pos 0 ≤ℤ cfg.pacing.min_delay_ms) × (cfg.pacing.min_delay_ms ≤ℤ cfg.pacing.max_delay_ms)

pub validate-Accepted : (cfg : Config) → validate cfg ≡ [] → Accepted cfg
unfolding validate pacing_checks limits_checks backoff_checks
validate-Accepted cfg e =
    let to_output = append-nil_parts _ _ (append-nil_parts _ _ e).0 in
    let to_targets = append-nil_parts _ _ to_output.0 in
    let to_count = append-nil_parts _ _ to_targets.0 in
    let to_backoff = append-nil_parts _ _ to_count.0 in
    let to_rates = append-nil_parts _ _ to_backoff.0 in
    let to_limits = append-nil_parts _ _ to_rates.0 in
    let pacing = kept-nil (pacing_checks cfg.pacing) to_limits.0 in
    let limits = kept-nil (limits_checks cfg.limits) to_limits.1 in
    let backoff = kept-nil (backoff_checks cfg.backoff) to_backoff.1 in
    let count = kept-nil (count_checks cfg.targets) to_count.1 in
    record {
      targets = targets_given cfg.targets count;
      weights = validate_targets-All _ weight_positive 0 cfg.targets to_targets.1;
      known = validate_targets-All _ kind_known 0 cfg.targets to_targets.1;
      workers = (
        leb_ℤ→lt cfg.limits.max_workers (pos 0) limits.0,
        leb_ℤ→lt cfg.limits.max_browser_workers (pos 0) limits.1.0,
      );
      backoff = (
        leb_ℤ→lt cfg.backoff.initial_ms (pos 0) backoff.0,
        ltb_ℤ→ge cfg.backoff.max_ms cfg.backoff.initial_ms backoff.1.0,
        leb_ℤ→lt cfg.backoff.multiplier (whole 1) backoff.1.1.0,
        leb_ℤ→lt cfg.backoff.max_attempts (pos 0) backoff.1.1.1.0,
      );
      delays = (
        ltb_ℤ→ge cfg.pacing.min_delay_ms (pos 0) pacing.1.1.1.1.0,
        ltb_ℤ→ge cfg.pacing.max_delay_ms cfg.pacing.min_delay_ms pacing.1.1.1.1.1.0,
      );
    }
