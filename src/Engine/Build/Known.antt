-- ===== src/Engine/Build/Known.antt =====
-- internal/engine/engine.go and internal/config/config.go: the drivers of an engine beside the types that `validate`
-- accepts.
use sendit.Prelude.{
  ℕ, zero, suc, ◌<◌, ◌≡◌, ◌≢◌, Bool, true, false, ◌&&◌, List, [], ◌∷◌, Option, some, ok, All,
  All-mono, get_elem?, ltb, subst, if◌then◌else◌, arith,
}
use sendit.Prelude.Int.{ℤ, pos, ◌<ℤ◌, ◌≤ℤ◌}
use sendit.Prelude.Text.{Text, one_of}
use sendit.Config.Schema.{Micro, Config}
use sendit.Config.Validate.{kinds, validate}
use sendit.Config.Validate.Accepted.{validate-Accepted}
use sendit.Task.Selector.{Task, Selector, new_selector, pick, pick_index}
use sendit.Task.Selector.Exact.{IsWeighed, pick-new_selector}
use sendit.Ratelimit.Registry.{Registry}
use sendit.Ratelimit.Registry
use sendit.Ratelimit.Backoff
use sendit.Ratelimit.Backoff.{BackoffRegistry}
use sendit.Engine.Dispatch.{
  TaskResult, End, unknown_driver, waiting_cancelled, limiter_cancelled, delivered, hostname,
  verdict, apply_verdict, dispatch, wait_redirects,
}
use sendit.Engine.Build.{drivers}

some-injective : {A : Type 0} (a b : A) → ◌≡◌ {A = Option A} (some a) (some b) → a ≡ b
some-injective a b e = cc e

All-get_elem? :
    {A : Type 0} (P : A → Type 0) (xs : List A) (i : ℕ) (x : A)
    → All P xs
    → get_elem? xs i ≡ some x
    → P x
All-get_elem? P [] i x h e = absurd (cc e)
All-get_elem? P (y ∷ ys) zero x h e = subst P (some-injective y x e) h.0
All-get_elem? P (y ∷ ys) (suc i) x h e = All-get_elem? P ys i x h.1 e

waiting_known : waiting_cancelled ≢ unknown_driver
waiting_known e = cc e

limiter_known : limiter_cancelled ≢ unknown_driver
limiter_known e = cc e

delivered_known : (r : TaskResult) → delivered r ≢ unknown_driver
delivered_known r e = cc e

ends :
    {A B : Type 0} (b c : Bool) (p p' p'' : A) (q q' : B) (r : TaskResult)
    → (if◌then◌else◌ {A = A × B × End} b
        (p, q, waiting_cancelled)
        (if◌then◌else◌ {A = A × B × End} c (p'', q', delivered r) (p', q, limiter_cancelled))).2
      ≢ unknown_driver
ends true c p p' p'' q q' r = waiting_known
ends false true p p' p'' q q' r = delivered_known r
ends false false p p' p'' q q' r = limiter_known

module _ {L : Type 0} (new_limiter : Micro → ℕ → L) (limiter_wait : L → L × Bool)
    (parse : Text → Option Text) (execute : Task → TaskResult × List Text) where
  dispatch-known :
      (rl : Registry L) (bo : BackoffRegistry) (t : Task) (cancelled : Bool) (now later draw : ℕ)
      → one_of t.kind drivers ≡ true
      → (dispatch new_limiter limiter_wait parse execute drivers rl bo t cancelled now later draw).2
        ≢ unknown_driver
  unfolding dispatch
  dispatch-known rl bo t cancelled now later draw known =
      let host = hostname parse t.url in
      let waited = Backoff.wait bo host now in
      let asked = Registry.wait new_limiter limiter_wait rl host in
      let after = apply_verdict (verdict waited.0 host (execute t).0) waited.0 host later draw in
      rw (known, dispatch)
        (ends (cancelled && ltb 0 waited.1) asked.1 rl asked.0
          (wait_redirects new_limiter limiter_wait asked.0 (execute t).1) waited.0 after
          (execute t).0)

  -- Of a configuration in which `validate` finds nothing, each draw of the selector that `New` makes gives a task,
  -- and `dispatch` of that task finds its driver among those of the engine.
  pub dispatch-pick :
      (cfg : Config) (s : Selector) (i : ℕ) (r : ℤ) (rl : Registry L) (bo : BackoffRegistry)
      (cancelled : Bool) (now later draw : ℕ)
      → validate cfg ≡ []
      → new_selector cfg.targets ≡ ok s
      → i < s.n
      → (t : Task) × (pick s i r ≡ some t)
        × ((dispatch new_limiter limiter_wait parse execute drivers rl bo t cancelled now later
              draw).2
            ≢ unknown_driver)
  dispatch-pick cfg s i r rl bo cancelled now later draw v made inside =
      let a = validate-Accepted cfg v in
      let weighed : IsWeighed cfg.targets =
        All-mono (λ t. pos 0 <ℤ t.weight) (λ t. pos 0 ≤ℤ t.weight) (λ t h. omega (arith, h))
          cfg.targets a.weights in
      let (t, found, picked) = pick-new_selector cfg.targets s weighed made i r inside in
      (
        record { url = t.url; kind = t.kind; config = t },
        picked,
        dispatch-known rl bo _ cancelled now later draw (
            All-get_elem? (λ t. one_of t.kind kinds ≡ true) cfg.targets (pick_index s i r) t a.known
              found),
      )
