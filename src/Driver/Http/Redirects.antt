-- ===== src/Driver/Http/Redirects.antt =====
-- internal/driver/http.go: the chains of redirects that `redirectPolicy` lets the client follow.
use sendit.Prelude.{
  ℕ, zero, suc, ◌≡◌, refl, ◌∙◌, Bool, false, List, [], ◌∷◌, Option, All, replicate, Bool-cases, inl,
  inr,
}
use sendit.Prelude.Text.{Text, text_eq, text_eq_iff, text_eq_refl, to_lower}
use sendit.Driver.Http.{Hop, follow, redirect_policy}

-- The requests of a chain that was followed, the latest first.
pub data Chain {E : Type 0} (limiter : Option (Text → Option E)) (allow_cross_host : Bool)
    : List Hop → Type 0 where
  start : (h : Hop) → Chain limiter allow_cross_host (h ∷ [])
  hop :
      (req : Hop) (via : List Hop)
      → Chain limiter allow_cross_host via
      → redirect_policy limiter allow_cross_host req via ≡ follow
      → Chain limiter allow_cross_host (req ∷ via)

pub SameHost : Hop → Hop → Type 0
SameHost g h = to_lower g.host ≡ to_lower h.host

same_host :
    {E : Type 0} (limiter : Option (Text → Option E)) (req last : Hop) (via : List Hop)
    → redirect_policy limiter false req (last ∷ via) ≡ follow
    → to_lower req.host ≡ to_lower last.host
unfolding redirect_policy
same_host limiter req last via e =
    elim (Bool-cases (text_eq (to_lower req.host) (to_lower last.host))) [
      | inl same ↦ (text_eq_iff (to_lower req.host) (to_lower last.host)).0 same
      | inr other ↦ absurd (cc (rw (other, redirect_policy) at e))
    ]

moved :
    (g h : Hop) (hs : List Hop)
    → to_lower g.host ≡ to_lower h.host
    → All (SameHost h) hs
    → All (SameHost g) hs
unfolding SameHost
moved g h [] e all = tt
moved g h (x ∷ hs) e all = (e ∙ all.0, moved g h hs e all.1)

-- All requests go to the host of the latest.
pub OneHost : List Hop → Type 0
OneHost [] = Unit
OneHost (h ∷ hs) = All (SameHost h) hs

hop-OneHost :
    {E : Type 0} (limiter : Option (Text → Option E)) (req : Hop) (via : List Hop)
    → OneHost via
    → redirect_policy limiter false req via ≡ follow
    → OneHost (req ∷ via)
unfolding OneHost SameHost
hop-OneHost limiter req [] one e = tt
hop-OneHost limiter req (last ∷ via) one e =
    let same : to_lower req.host ≡ to_lower last.host = same_host limiter req last via e in
    (same, moved req last via same one)

-- Without `allow_cross_host_redirects`, all requests of a chain go to one host, whatever the case of its letters.
pub chain-OneHost :
    {E : Type 0} (limiter : Option (Text → Option E)) (via : List Hop)
    → Chain limiter false via
    → OneHost via
unfolding OneHost
chain-OneHost limiter via (start h) = tt
chain-OneHost limiter via (hop req last c e) =
    hop-OneHost limiter req last (chain-OneHost limiter last c) e

-- Redirects on one host are followed without a limit: there is a chain of every length.
pub chain_of_length :
    {E : Type 0} (limiter : Option (Text → Option E)) (allow_cross_host : Bool) (h : Hop) (n : ℕ)
    → Chain limiter allow_cross_host (replicate (suc n) h)
unfolding redirect_policy
chain_of_length limiter allow_cross_host h zero = start h
chain_of_length limiter allow_cross_host h (suc n) =
    hop h (replicate (suc n) h) (chain_of_length limiter allow_cross_host h n)
      (rw (text_eq_refl (to_lower h.host), redirect_policy) refl)
