-- ===== src/Prelude/Distinct.antt =====
-- Lists of texts without repetitions.
use sendit.Prelude.Text.{Text, text_eq, text_eq_iff, one_of}
use sendit.Prelude.Lists.{All}
use mathlib.Core.Path.{◌≡◌, refl}
use mathlib.Core.Bool.{true, false, ◌||◌}
use mathlib.Core.List.{List, [], ◌∷◌, ◌++◌}
use native.Mathlib.Omega.{arith}

abbrev pub IsDistinct : List Text → Type 0
IsDistinct [] = Unit
IsDistinct (x ∷ xs) = (one_of x xs ≡ false) × IsDistinct xs

pub one_of-append :
    (t : Text) (xs ys : List Text) → one_of t (xs ++ ys) ≡ (one_of t xs || one_of t ys)
unfolding one_of
one_of-append t [] ys = refl
one_of-append t (x ∷ xs) ys = ground (arith, one_of-append t xs ys)

pub text_eq_comm : (s t : Text) → text_eq s t ≡ text_eq t s
text_eq_comm s t = ground (arith, text_eq_iff s t, text_eq_iff t s)

pub IsDistinct-snoc :
    (xs : List Text) (u : Text) → IsDistinct xs → one_of u xs ≡ false → IsDistinct (xs ++ (u ∷ []))
unfolding one_of
IsDistinct-snoc [] u d h = (refl, tt)
IsDistinct-snoc (x ∷ xs) u d h = (
  ground (arith, one_of-append x xs (u ∷ []), d.0, text_eq_comm u x, h),
  IsDistinct-snoc xs u d.1 (ground (arith, h)),
)

-- Without one of its elements.
pub IsDistinct-drop :
    (xs : List Text) (y : Text) (ys : List Text)
    → IsDistinct (xs ++ (y ∷ ys))
    → IsDistinct (xs ++ ys)
unfolding one_of
IsDistinct-drop [] y ys d = d.1
IsDistinct-drop (x ∷ xs) y ys d = (
  ground (arith, one_of-append x xs ys, one_of-append x xs (y ∷ ys), d.0),
  IsDistinct-drop xs y ys d.1,
)

pub IsDistinct-front : (xs ys : List Text) → IsDistinct (xs ++ ys) → IsDistinct xs
IsDistinct-front [] ys d = tt
IsDistinct-front (x ∷ xs) ys d =
    (ground (arith, one_of-append x xs ys, d.0), IsDistinct-front xs ys d.1)

-- What all of the texts are and `u` is not, `u` is not one of.
pub one_of-none :
    (seen : List Text) (u : Text) (xs : List Text)
    → All (λ x. one_of x seen ≡ true) xs
    → one_of u seen ≡ false
    → one_of u xs ≡ false
unfolding one_of
one_of-none seen u [] all h = refl
one_of-none seen u (x ∷ xs) all h =
    ground (arith, text_eq_iff x u, all.0, h, one_of-none seen u xs all.1 h)
