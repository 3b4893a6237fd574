-- ===== src/Tui/Model/Shades.antt =====
-- internal/tui/model.go: the sparkline.
use sendit.Prelude.{
  ℕ, zero, suc, ◌-◌, ◌≤◌, ◌<◌, ◌≡◌, refl, ◌==◌, List, [], ◌∷◌, if◌then◌else◌, ltb, length, drop,
  All, arith, Bool-cases, inl, inr, ap,
}
use native.Mathlib.Nat.{div-lt_iff_lt-mul}
use sendit.Tui.Model.{lowest, highest, spark_chars, shade, shades, shades_of, sparkline}

lowest≤ : (m : ℕ) (vs : List ℕ) → (lowest m vs ≤ m) × All (λ v. lowest m vs ≤ v) vs
unfolding lowest
lowest≤ m [] = (omega arith, tt)
lowest≤ m (v ∷ vs) =
    let rest = lowest≤ (if ltb v m then v else m) vs in
    (ground (arith, rest.0), (ground (arith, rest.0), rest.1))

≤highest : (m : ℕ) (vs : List ℕ) → (m ≤ highest m vs) × All (λ v. v ≤ highest m vs) vs
unfolding highest
≤highest m [] = (omega arith, tt)
≤highest m (v ∷ vs) =
    let rest = ≤highest (if ltb m v then v else m) vs in
    (ground (arith, rest.0), (ground (arith, rest.0), rest.1))

shade_bound : (lo hi l : ℕ) → lo ≤ hi → l ≤ hi → shade lo hi l < spark_chars
unfolding shade
shade_bound lo hi l order h = elim (Bool-cases (hi == lo)) [
  | inl flat ↦ rw (flat, shade) (omega arith)
  | inr apart ↦
      let wide : 0 < hi - lo = ground (arith, apart, order) in
      rw (apart, shade) ((div-lt_iff_lt-mul wide).1 (omega (arith, wide, h)))
]

shades_bound :
    (lo hi : ℕ) (ls : List ℕ)
    → lo ≤ hi
    → All (λ v. v ≤ hi) ls
    → All (λ i. i < spark_chars) (shades lo hi ls)
unfolding shades
shades_bound lo hi [] order h = tt
shades_bound lo hi (l ∷ ls) order h =
    (shade_bound lo hi l order h.0, shades_bound lo hi ls order h.1)

length-shades : (lo hi : ℕ) (ls : List ℕ) → length (shades lo hi ls) ≡ length ls
unfolding shades
length-shades lo hi [] = refl
length-shades lo hi (l ∷ ls) = ap suc (length-shades lo hi ls)

shades_of_bounds :
    (ls : List ℕ) → All (λ i. i < spark_chars) (shades_of ls) × (length (shades_of ls) ≤ length ls)
unfolding shades_of
shades_of_bounds [] = (tt, omega arith)
shades_of_bounds (l ∷ []) = (tt, omega arith)
shades_of_bounds (first ∷ second ∷ more) =
    let low = lowest≤ first (second ∷ more) in
    let high = ≤highest first (second ∷ more) in
    (
      shades_bound _ _ (first ∷ second ∷ more) (omega (arith, low.0, high.0)) (high.0, high.1),
      omega (
        arith,
        length-shades (lowest first (second ∷ more)) (highest first (second ∷ more))
            (first ∷ second ∷ more),
      ),
    )

length-drop : (n : ℕ) (xs : List ℕ) → length (drop n xs) ≡ length xs - n
length-drop zero xs = omega arith
length-drop (suc n) [] = omega arith
length-drop (suc n) (x ∷ xs) = omega (arith, length-drop n xs)

-- Every index of a sparkline is one of a character that there is, and there are at most as many as the width.
pub sparkline_bounds :
    (lats : List ℕ) (max_width : ℕ)
    → All (λ i. i < spark_chars) (sparkline lats max_width)
      × (length (sparkline lats max_width) ≤ max_width)
unfolding sparkline
sparkline_bounds lats max_width = elim (Bool-cases (ltb max_width (length lats))) [
  | inl long ↦
      let b = shades_of_bounds (drop (length lats - max_width) lats) in
      rw (long, sparkline)
        (b.0, ground (arith, b.1, length-drop (length lats - max_width) lats, long))
  | inr fits ↦
      let b = shades_of_bounds lats in rw (fits, sparkline) (b.0, ground (arith, b.1, fits))
]
