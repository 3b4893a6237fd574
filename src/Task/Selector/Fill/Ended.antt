-- ===== src/Task/Selector/Fill/Ended.antt =====
-- How the main loop of `NewSelector` ends.
use sendit.Prelude.{ℕ, ◌≡◌, refl, ◌⊎◌, List, [], ◌∷◌, inl, inr, Bool, Bool-cases}
use sendit.Prelude.Int.{ℤ, ltb_ℤ, ltb_ℤ→lt, ltb_ℤ→ge}
use sendit.Task.Selector.{Table, at, pair_up, fill}
use sendit.Task.Selector.Fill.{Inv, mark, down-Inv, stay-Inv}

-- How the main loop ends: one stack is empty, and the invariant holds with what `P` adds to it.
pub record Filled (n : ℕ) (one : ℤ) (start : List ℤ) (P : Table → Type 0)
    (r : Table × List ℕ × List ℕ) : Type 0 where
  pub done : ℕ → Bool
  pub inv : Inv n one start r.0 r.1 r.2 done
  pub extra : P r.0
  pub over : (r.1 ≡ []) ⊎ (r.2 ≡ [])

pub fill-Filled :
    (n : ℕ) (one : ℤ) (start : List ℤ) (P : Table → Type 0)
    → ((t : Table) (l g : ℕ) (small large : List ℕ) (done : ℕ → Bool)
        → Inv n one start t (l ∷ small) (g ∷ large) done
        → P t
        → P (pair_up one t l g))
    → (t : Table) (small large : List ℕ) (done : ℕ → Bool) → Inv n one start t small large done
    → P t
    → Filled n one start P (fill one t small large)
unfolding fill
fill-Filled n one start P keep t [] large done v p = record {
  done = done;
  inv = v;
  extra = p;
  over = inl refl;
}
fill-Filled n one start P keep t (l ∷ small) [] done v p = record {
  done = done;
  inv = v;
  extra = p;
  over = inr refl;
}
fill-Filled n one start P keep t (l ∷ small) (g ∷ large) done v p =
    elim (Bool-cases (ltb_ℤ (at (pair_up one t l g).scaled g) one)) [
      | inl e ↦
          rw (e, fill)
            (fill-Filled n one start P keep (pair_up one t l g) (g ∷ small) large (mark done l)
              (down-Inv v (ltb_ℤ→lt (at (pair_up one t l g).scaled g) one e))
              (keep t l g small large done v p))
      | inr e ↦
          rw (e, fill)
            (fill-Filled n one start P keep (pair_up one t l g) small (g ∷ large) (mark done l)
              (stay-Inv v (ltb_ℤ→ge (at (pair_up one t l g).scaled g) one e))
              (keep t l g small large done v p))
    ]
