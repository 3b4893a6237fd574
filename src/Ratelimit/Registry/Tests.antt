-- ===== src/Ratelimit/Registry/Tests.antt =====
-- A registry whose limiters count their waits, and the theorems at it.
use sendit.Prelude.{ℕ, suc, ◌≡◌, refl, Bool, true, List, [], ◌∷◌}
use sendit.Prelude.Text.{Text, codes, text_eq}
use sendit.Prelude.Assoc.{lookup, insert}
use sendit.Config.Schema.{Micro, DomainRateLimit, whole}
use sendit.Ratelimit.Registry.{Registry, new_registry, per_domain_from, wait}
use sendit.Ratelimit.Registry.Laws.{state}

abbrev a_host : Text
a_host = codes "a.example"

abbrev limits : List DomainRateLimit
limits = record { domain = a_host; rps = whole 2 } ∷ record { domain = a_host; rps = whole 5 } ∷ []

-- A limiter is its rate and how often it has been waited on.
abbrev new_limiter : Micro → ℕ → Micro × ℕ
new_limiter rps burst = (rps, 0)

abbrev limiter_wait : Micro × ℕ → (Micro × ℕ) × Bool
limiter_wait l = ((l.0, suc l.1), true)

abbrev empty : Registry (Micro × ℕ)
empty = record { limiters = []; default_rps = whole 1; per_domain = (a_host, whole 5) ∷ [] }

empty_is_new : new_registry (Micro × ℕ) (whole 1) (per_domain_from [] limits) ≡ empty
unfolding new_registry per_domain_from insert text_eq
empty_is_new = refl

twice :
    state new_limiter limiter_wait
      (wait new_limiter limiter_wait (wait new_limiter limiter_wait empty a_host).0 a_host).0
      a_host
    ≡ (whole 5, 2)
unfolding wait lookup insert text_eq
twice = refl
