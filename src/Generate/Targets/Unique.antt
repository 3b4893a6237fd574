-- ===== src/Generate/Targets/Unique.antt =====
-- cmd/sendit/generate.go: what `deduplicateTargets` leaves.
use sendit.Prelude.{
  ◌≡◌, refl, ◌∙◌, Bool, false, not, ◌&&◌, List, [], ◌∷◌, arith, Bool-cases, inl, inr,
}
use sendit.Prelude.Text.{Text, text_eq_iff, text_eq_refl, one_of}
use sendit.Prelude.Distinct.{IsDistinct}
use sendit.Config.Schema.{TargetConfig}
use sendit.Engine.Reload.{urls}
use sendit.Generate.Targets.{deduplicate_from, deduplicate_targets}

one_of-deduplicate_from :
    (seen : List Text) (ts : List TargetConfig) (u : Text)
    → one_of u (urls (deduplicate_from seen ts)) ≡ (one_of u (urls ts) && not (one_of u seen))
unfolding deduplicate_from one_of
one_of-deduplicate_from seen [] u = refl
one_of-deduplicate_from seen (t ∷ ts) u = elim (Bool-cases (one_of t.url seen)) [
  | inl old ↦
      rw (old, deduplicate_from)
        (ground (arith, old, text_eq_iff t.url u, one_of-deduplicate_from seen ts u))
  | inr new ↦
      rw (new, deduplicate_from)
        (ground (arith, new, text_eq_iff t.url u, one_of-deduplicate_from (t.url ∷ seen) ts u))
]

deduplicate_from-IsDistinct :
    (seen : List Text) (ts : List TargetConfig) → IsDistinct (urls (deduplicate_from seen ts))
unfolding deduplicate_from one_of
deduplicate_from-IsDistinct seen [] = tt
deduplicate_from-IsDistinct seen (t ∷ ts) = elim (Bool-cases (one_of t.url seen)) [
  | inl old ↦ rw (old, deduplicate_from) (deduplicate_from-IsDistinct seen ts)
  | inr new ↦
      rw (new, deduplicate_from)
        (fresh t.url seen ts, deduplicate_from-IsDistinct (t.url ∷ seen) ts)
]
  where
    fresh :
        (u : Text) (seen : List Text) (ts : List TargetConfig)
        → one_of u (urls (deduplicate_from (u ∷ seen) ts)) ≡ false
    fresh u seen ts = rw (one_of-deduplicate_from (u ∷ seen) ts u) (ground (arith, text_eq_refl u))

and_true : (b : Bool) → (b && not false) ≡ b
and_true b = ground arith

-- `deduplicateTargets` leaves no URL twice, and every URL that was there once.
pub deduplicate_targets-IsDistinct :
    (ts : List TargetConfig)
    → IsDistinct (urls (deduplicate_targets ts))
      × ((u : Text) → one_of u (urls (deduplicate_targets ts)) ≡ one_of u (urls ts))
unfolding deduplicate_targets one_of
deduplicate_targets-IsDistinct ts = (
  deduplicate_from-IsDistinct [] ts,
  λ u. one_of-deduplicate_from [] ts u ∙ and_true (one_of u (urls ts)),
)
