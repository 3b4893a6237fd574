-- ===== src/Ratelimit/Registry.antt =====
-- internal/ratelimit/ratelimit.go: `Registry`, a token-bucket limiter for each domain, made when the
-- domain is first met. The limiters of golang.org/x/time/rate are a parameter: how one is made of a
-- rate and a burst, and what waiting on one does to it.
pub mod Laws
mod Tests
use sendit.Prelude.{ℕ, ◌≡◌, refl, List, [], ◌∷◌, Option, none, some}
use sendit.Prelude.Text.{Text}
use sendit.Prelude.Assoc.{lookup, insert}
use sendit.Config.Schema.{Micro, DomainRateLimit}

-- The map holds pointers, but a limiter is reached through its entry only: the entry holds its state.
pub record Registry (L : Type 0) : Type 0 where
  pub limiters : List (Text × L)
  pub default_rps : Micro
  pub per_domain : List (Text × Micro)

-- The map that `New` and `Reload` of internal/engine/engine.go build: a later entry for a domain wins.
unfoldable pub per_domain_from : List (Text × Micro) → List DomainRateLimit → List (Text × Micro)
per_domain_from m [] = m
per_domain_from m (d ∷ ds) = per_domain_from (insert d.domain d.rps m) ds

unfoldable pub new_registry : (L : Type 0) → Micro → List (Text × Micro) → Registry L
new_registry L default_rps per_domain = record {
  limiters = [];
  default_rps = default_rps;
  per_domain = per_domain;
}

-- The rate that a new limiter gets.
unfoldable pub rps_of : Micro → List (Text × Micro) → Text → Micro
rps_of default_rps per_domain domain = elim (lookup domain per_domain) [
  | none ↦ default_rps
  | some override ↦ override
]

module _ {L R : Type 0} (new_limiter : Micro → ℕ → L) (limiter_wait : L → L × R) where
  -- `getLimiter`: the registry, which now has the limiter, and the limiter.
  unfoldable pub get_limiter : Registry L → Text → Registry L × L
  unfolding rps_of
  get_limiter r domain = elim (lookup domain r.limiters) [
    | some lim ↦ (r, lim)
    | none ↦
        let lim = new_limiter (rps_of r.default_rps r.per_domain domain) 1 in
        (record r { limiters = insert domain lim r.limiters }, lim)
  ]

  -- `Wait`: the limiter of the domain is waited on, in place.
  unfoldable pub wait : Registry L → Text → Registry L × R
  unfolding get_limiter
  wait r domain =
      let (r', lim) = get_limiter r domain in
      let (lim', res) = limiter_wait lim in
      (record r' { limiters = insert domain lim' r'.limiters }, res)
