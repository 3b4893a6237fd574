-- ===== src/Engine/Dispatch/Hosts.antt =====
-- internal/engine/engine.go: `dispatch` works on the entries of its own host.
use sendit.Prelude.{
  ℕ, ◌≡◌, refl, arith, [], ◌∷◌, Bool, true, false, ◌&&◌, List, Option, if◌then◌else◌, ltb, ◌∙◌,
}
use sendit.Prelude.Text.{Text, text_eq, one_of}
use sendit.Prelude.Distinct.{text_eq_comm}
use sendit.Config.Schema.{Micro}
use sendit.Ratelimit.Backoff
use sendit.Ratelimit.Backoff.{BackoffRegistry, attempts}
use sendit.Ratelimit.Backoff.Laws.{is_spent, attempts-wait}
use sendit.Ratelimit.Registry
use sendit.Ratelimit.Registry.{Registry}
use sendit.Ratelimit.Registry.Laws.{state, wait_lem}
use sendit.Task.Selector.{Task}
use sendit.Engine.Dispatch.{
  TaskResult, End, hostname, verdict, apply_verdict, wait_redirects, dispatch,
}
use sendit.Engine.Dispatch.Attempts.{attempts-apply_verdict}

apart :
    (d j : Text) (b : Bool) (k n : ℕ)
    → text_eq d j ≡ false
    → (if b && text_eq d j then k else n) ≡ n
apart d j true k n h = rw h refl
apart d j false k n h = refl

either : {X : Type 0} (P : X → Type 0) (b : Bool) (x y : X) → P x → P y → P (if b then x else y)
either P true x y px py = px
either P false x y px py = py

module _ {L : Type 0} (new_limiter : Micro → ℕ → L) (limiter_wait : L → L × Bool)
    (parse : Text → Option Text) (execute : Task → TaskResult × List Text) where
  wait_redirects-other :
      (rl : Registry L) (hosts : List Text) (j : Text)
      → one_of j hosts ≡ false
      → state new_limiter limiter_wait (wait_redirects new_limiter limiter_wait rl hosts) j
        ≡ state new_limiter limiter_wait rl j
  unfolding wait_redirects one_of
  wait_redirects-other rl [] j other = refl
  wait_redirects-other rl (host ∷ hosts) j other =
      let waited = (Registry.wait new_limiter limiter_wait rl host).0 in
      let apart : text_eq host j ≡ false = ground (arith, other, text_eq_comm host j) in
      wait_redirects-other waited hosts j (ground (arith, other))
      ∙ rw apart at (wait_lem new_limiter limiter_wait rl host j).0

  -- A dispatch that runs alone, whatever its end, leaves the attempts of every host but the one of its task as they
  -- were, and the limiter of every host but that one and those of the redirects for which its driver waits.
  pub dispatch-other_host :
      (drivers : List Text) (rl : Registry L) (bo : BackoffRegistry) (t : Task) (cancelled : Bool)
      (now later draw : ℕ) (j : Text)
      → text_eq (hostname parse t.url) j ≡ false
      → one_of j (execute t).1 ≡ false
      → (let (rl', bo', end) =
            dispatch new_limiter limiter_wait parse execute drivers rl bo t cancelled now later
              draw in
          (attempts bo' j ≡ attempts bo j)
          × (state new_limiter limiter_wait rl' j ≡ state new_limiter limiter_wait rl j))
  unfolding dispatch
  dispatch-other_host drivers rl bo t cancelled now later draw j other elsewhere =
      let host = hostname parse t.url in
      let waited = (Backoff.wait bo host now).0 in
      let waits : attempts waited j ≡ attempts bo j =
        attempts-wait bo host j now ∙ apart host j (is_spent bo host now) 0 (attempts bo j) other in
      let acts : attempts (apply_verdict (verdict waited host (execute t).0) waited host later draw)
            j
          ≡ attempts bo j =
        rw other at (attempts-apply_verdict waited host j (execute t).0 later draw) ∙ waits in
      let limits : state new_limiter limiter_wait (Registry.wait new_limiter limiter_wait rl host).0
            j
          ≡ state new_limiter limiter_wait rl j =
        rw other at (wait_lem new_limiter limiter_wait rl host j).0 in
      let redirected = wait_redirects-other _ (execute t).1 j elsewhere ∙ limits in
      let Kept = λ (out : Registry L × BackoffRegistry × End).
        (attempts out.1 j ≡ attempts bo j)
        × (state new_limiter limiter_wait out.0 j ≡ state new_limiter limiter_wait rl j) in
      either Kept (one_of t.kind drivers) _ _
        (either Kept (cancelled && ltb 0 (Backoff.wait bo host now).1) _ _ (waits, refl)
          (either Kept (Registry.wait new_limiter limiter_wait rl host).1 _ _ (acts, redirected)
            (waits, limits)))
        (refl, refl)
