-- ===== src/Task/Selector/Stacks.antt =====
-- The first loop of `NewSelector`, which sorts the slots on two stacks, and the invariant at the
-- start of the main loop.
use sendit.Prelude.{
  ℕ, zero, suc, ◌+◌, ◌<◌, ◌≡◌, refl, sym, ap, ◌∙◌, Bool, true, false, ◌&&◌, List, [], ◌∷◌, length,
  replicate, length-replicate, arith, if◌then◌else◌, ◌==◌, ltb, leb, inl, inr, Bool-cases, ==_iff,
}
use sendit.Prelude.Int.{
  ℤ, pos, ◌+ℤ◌, ◌-ℤ◌, ◌*ℤ◌, ◌≤ℤ◌, ◌<ℤ◌, ltb_ℤ, int_laws, eq_of_parts, parts_of_eq, ltb_ℤ→lt,
  ltb_ℤ→ge, *ℤ-+ℤ, *ℤ_suc, *ℤ_parts,
}
use sendit.Task.Selector.{Table, at, partition, scale, total_weight}
use sendit.Task.Selector.Sums.{sum_to, count, balance, sum_to_congr, sum_to_update}
use sendit.Task.Selector.Fill.{Inv}

sum_minus : ℤ → List ℤ → ℤ
sum_minus one [] = pos 0
sum_minus one (p ∷ ps) = (p -ℤ one) +ℤ sum_minus one ps

-- What the loop has done from index `i` on, over the scaled weights `f i`, `f (i + 1)`, ….
record Parted (one : ℤ) (f : ℕ → ℤ) (i : ℕ) (ps : List ℤ) (small large : List ℕ)
    (r : List ℕ × List ℕ) : Type 0 where
  counts :
      (x : ℕ)
      → count x r.0 + count x r.1
        ≡ count x small + count x large + (if leb i x && ltb x (i + length ps) then 1 else 0)
  lows : (x : ℕ) → 0 < count x r.0 → f x <ℤ one
  highs : (x : ℕ) → 0 < count x r.1 → one ≤ℤ f x
  total :
      balance one f r.0 +ℤ balance one f r.1
      ≡ (balance one f small +ℤ balance one f large) +ℤ sum_minus one ps

module _ (one : ℤ) (f : ℕ → ℤ) (i : ℕ) (small large : List ℕ) where
  abbrev low_stack : Bool → List ℕ
  low_stack b = if b then i ∷ small else small

  abbrev high_stack : Bool → List ℕ
  high_stack b = if b then large else i ∷ large

  push_counts :
      (b : Bool) (x : ℕ)
      → count x (low_stack b) + count x (high_stack b)
        ≡ count x small + count x large + (if i == x then 1 else 0)
  unfolding count
  push_counts true x = omega arith
  push_counts false x = omega arith

  push_total :
      (b : Bool)
      → balance one f (low_stack b) +ℤ balance one f (high_stack b)
        ≡ (balance one f small +ℤ balance one f large) +ℤ (f i -ℤ one)
  unfolding balance
  push_total true = omega int_laws
  push_total false = omega int_laws

  push_lows :
      (b : Bool)
      → b ≡ ltb_ℤ (f i) one
      → ((x : ℕ) → 0 < count x small → f x <ℤ one)
      → (x : ℕ) → 0 < count x (low_stack b)
      → f x <ℤ one
  unfolding count
  push_lows true e lo x h = elim (Bool-cases (i == x)) [
    | inl ex ↦ rw (← (==_iff i x).0 ex) (ltb_ℤ→lt (f i) one (sym e))
    | inr ex ↦ lo x (ground arith)
  ]
  push_lows false e lo x h = lo x h

  push_highs :
      (b : Bool)
      → b ≡ ltb_ℤ (f i) one
      → ((x : ℕ) → 0 < count x large → one ≤ℤ f x)
      → (x : ℕ) → 0 < count x (high_stack b)
      → one ≤ℤ f x
  unfolding count
  push_highs true e hi x h = hi x h
  push_highs false e hi x h = elim (Bool-cases (i == x)) [
    | inl ex ↦ rw (← (==_iff i x).0 ex) (ltb_ℤ→ge (f i) one (sym e))
    | inr ex ↦ hi x (ground arith)
  ]

partition-Parted :
    (one : ℤ) (f : ℕ → ℤ) (i : ℕ) (ps : List ℤ) (small large : List ℕ)
    → ((k : ℕ) → k < length ps → at ps k ≡ f (i + k))
    → ((x : ℕ) → 0 < count x small → f x <ℤ one)
    → ((x : ℕ) → 0 < count x large → one ≤ℤ f x)
    → Parted one f i ps small large (partition one i ps small large)
unfolding partition sum_minus
partition-Parted one f i [] small large h lo hi = record {
  counts = λ x. ground arith;
  lows = lo;
  highs = hi;
  total = eq_of_parts _ _ (omega int_laws);
}
partition-Parted one f i (p ∷ ps) small large h lo hi =
    let b = ltb_ℤ p one in
    let fi : p ≡ f i = h 0 (omega arith) ∙ ap f (omega arith) in
    let eb : b ≡ ltb_ℤ (f i) one = rw fi in
    let r =
      partition-Parted one f (i + 1) ps (low_stack one f i small large b)
        (high_stack one f i small large b) (λ k hk. h (suc k) (omega arith) ∙ ap f (omega arith))
        (push_lows one f i small large b eb lo) (push_highs one f i small large b eb hi) in
    record {
      counts = λ x. ground (arith, r.counts x, push_counts one f i small large b x);
      lows = r.lows;
      highs = r.highs;
      total = eq_of_parts _ _ (
          omega (
            int_laws,
            parts_of_eq _ _ r.total,
            parts_of_eq _ _ (push_total one f i small large b),
            parts_of_eq _ _ fi,
          ));
    }

length-scale : (n : ℕ) (ws : List ℤ) → length (scale n ws) ≡ length ws
unfolding scale
length-scale n [] = refl
length-scale n (w ∷ ws) = ap suc (length-scale n ws)

pub at-scale : (n : ℕ) (ws : List ℤ) (j : ℕ) → j < length ws → at (scale n ws) j ≡ pos n *ℤ at ws j
unfolding scale
at-scale n [] j h = absurd (omega arith)
at-scale n (w ∷ ws) zero h = refl
at-scale n (w ∷ ws) (suc j) h = at-scale n ws j (omega arith)

sum_minus-scale :
    (n : ℕ) (one : ℤ) (ws : List ℤ)
    → sum_minus one (scale n ws) +ℤ (pos (length ws) *ℤ one) ≡ pos n *ℤ total_weight ws
unfolding sum_minus scale total_weight
sum_minus-scale n one [] = eq_of_parts _ _ (omega (int_laws, *ℤ_parts n (pos 0), *ℤ_parts 0 one))
sum_minus-scale n one (w ∷ ws) = eq_of_parts _ _ (
    omega (
      int_laws,
      parts_of_eq _ _ (sum_minus-scale n one ws),
      parts_of_eq _ _ (*ℤ-+ℤ n w (total_weight ws)),
      parts_of_eq _ _ (*ℤ_suc (length ws) one),
    ))

-- The scaled weights make up 1.0 on average.
sum_minus_zero : (ws : List ℤ) → sum_minus (total_weight ws) (scale (length ws) ws) ≡ pos 0
sum_minus_zero ws =
    eq_of_parts _ _
      (omega (int_laws, parts_of_eq _ _ (sum_minus-scale (length ws) (total_weight ws) ws)))

abbrev one_at : ℕ → ℤ → ℕ → ℤ
one_at j a i = if i == j then a else pos 0

sum_to_zero : (n : ℕ) → sum_to n (λ i. pos 0) ≡ pos 0
unfolding sum_to
sum_to_zero zero = refl
sum_to_zero (suc n) = eq_of_parts _ _ (omega (int_laws, parts_of_eq _ _ (sum_to_zero n)))

sum_to_one : (n j : ℕ) (a : ℤ) → j < n → sum_to n (one_at j a) ≡ a
sum_to_one n j a h =
    let e = sum_to_update n (λ i. pos 0) (one_at j a) j (λ i ne. ground arith) h in
    let here : one_at j a j ≡ a = ground arith in
    eq_of_parts _ _
      (omega (int_laws, parts_of_eq _ _ e, parts_of_eq _ _ (sum_to_zero n), parts_of_eq _ _ here))

-- The arrays before the main loop.
abbrev pub fresh_table : List ℤ → Table
fresh_table scaled = record {
  scaled = scaled;
  prob = replicate (length scaled) (pos 0);
  alias = replicate (length scaled) 0;
}

pub start-Inv :
    (ws : List ℤ)
    → let scaled = scale (length ws) ws in
      let stacks = partition (total_weight ws) 0 scaled [] [] in
      Inv (length ws) (total_weight ws) scaled (fresh_table scaled) stacks.0 stacks.1 (λ i. false)
unfolding count balance
start-Inv ws =
    let n = length ws in
    let one = total_weight ws in
    let scaled = scale n ws in
    let len : length scaled ≡ n = length-scale n ws in
    let r =
      partition-Parted one (at scaled) 0 scaled [] [] (λ k hk. ap (at scaled) (omega arith))
        (λ x h. absurd (omega arith)) (λ x h. absurd (omega arith)) in
    record {
      len_scaled = len;
      len_prob = length-replicate (length scaled) (pos 0) ∙ len;
      len_alias = length-replicate (length scaled) 0 ∙ len;
      stacks = λ i. ground (arith, r.counts i, len);
      lows = r.lows;
      highs = r.highs;
      balanced =
          eq_of_parts _ _
            (omega (int_laws, parts_of_eq _ _ r.total, parts_of_eq _ _ (sum_minus_zero ws)));
      mass = λ j hj.
          sum_to_congr n _ (one_at j (at scaled j))
            (λ i hi. elim (Bool-cases (i == j)) [ inl e ↦ rw (e, (==_iff i j).0 e) | inr e ↦ rw e ])
          ∙ sum_to_one n j (at scaled j) hj;
    }
