-- ===== src/Ratelimit/Registry/Laws.antt =====
-- Each domain has one limiter, of its own rate, and no other domain's waits touch it.
use sendit.Prelude.{
  ℕ, ◌≡◌, refl, ap, List, [], ◌∷◌, Option, none, some, if◌then◌else◌, arith, inl, inr, Bool-cases,
  Option-cases,
}
use sendit.Prelude.Text.{Text, text_eq}
use sendit.Prelude.Assoc.{lookup, insert, lookup-insert}
use sendit.Config.Schema.{Micro, DomainRateLimit}
use sendit.Ratelimit.Registry.{Registry, per_domain_from, rps_of, get_limiter, wait}

-- The last rate that a list of limits names for a domain, or else `d`.
pub last_rps : List DomainRateLimit → Text → Option Micro → Option Micro
last_rps [] domain d = d
last_rps (x ∷ xs) domain d = last_rps xs domain (if text_eq x.domain domain then some x.rps else d)

-- The map that is built from the configuration holds, for each domain, its last rate there.
pub lookup-per_domain_from :
    (m : List (Text × Micro)) (ds : List DomainRateLimit) (domain : Text)
    → lookup domain (per_domain_from m ds) ≡ last_rps ds domain (lookup domain m)
unfolding per_domain_from last_rps
lookup-per_domain_from m [] domain = refl
lookup-per_domain_from m (x ∷ xs) domain =
    rw (lookup-per_domain_from (insert x.domain x.rps m) xs domain)
      (ap (last_rps xs domain) (lookup-insert x.domain domain x.rps m))

module _ {L R : Type 0} (new_limiter : Micro → ℕ → L) (limiter_wait : L → L × R) where
  -- The state of a domain's limiter: that of its entry, or a fresh one of the domain's rate, burst 1.
  abbrev pub state : Registry L → Text → L
  state r domain = elim (lookup domain r.limiters) [
    | some lim ↦ lim
    | none ↦ new_limiter (rps_of r.default_rps r.per_domain domain) 1
  ]

  lookup-wait :
      (r : Registry L) (d j : Text)
      → lookup j (wait new_limiter limiter_wait r d).0.limiters
        ≡ (if text_eq d j then some (limiter_wait (state r d)).0 else lookup j r.limiters)
  unfolding wait get_limiter
  lookup-wait r d j =
      let fresh = new_limiter (rps_of r.default_rps r.per_domain d) 1 in
      let next = (limiter_wait (state r d)).0 in
      elim (Option-cases (lookup d r.limiters)) [
        | inl e ↦ ground (
          arith,
          e,
          lookup-insert d j next (insert d fresh r.limiters),
          lookup-insert d j fresh r.limiters,
        )
        | inr (lim, e) ↦ ground (arith, e, lookup-insert d j next r.limiters)
      ]

  rates-wait :
      (r : Registry L) (d : Text)
      → ((wait new_limiter limiter_wait r d).0.default_rps ≡ r.default_rps)
        × ((wait new_limiter limiter_wait r d).0.per_domain ≡ r.per_domain)
        × ((wait new_limiter limiter_wait r d).1 ≡ (limiter_wait (state r d)).1)
  unfolding wait get_limiter
  rates-wait r d = elim (Option-cases (lookup d r.limiters)) [
    | inl e ↦ ground (arith, e)
    | inr (lim, e) ↦ ground (arith, e)
  ]

  -- A wait steps the limiter of its domain once, from its own state, and leaves the state of
  -- every other domain's limiter as it was; it returns what that limiter returns.
  pub wait_lem :
      (r : Registry L) (d j : Text)
      → (state (wait new_limiter limiter_wait r d).0 j
          ≡ (if text_eq d j then (limiter_wait (state r d)).0 else state r j))
        × ((wait new_limiter limiter_wait r d).1 ≡ (limiter_wait (state r d)).1)
  wait_lem r d j = (
    elim (Bool-cases (text_eq d j)) [
      | inl same ↦ ground (arith, lookup-wait r d j, same)
      | inr apart ↦ ground (arith, lookup-wait r d j, apart, rates-wait r d)
    ],
    (rates-wait r d).2,
  )
