-- ===== src/Task/Selector/Settled.antt =====
-- The finished alias table: its probabilities lie between 0 and 1, its aliases are slots, and the
-- slots give each target its scaled weight.
use sendit.Prelude.{
  ℕ, zero, suc, ◌*◌, ◌≤◌, ◌<◌, ◌≡◌, refl, subst, ◌∙◌, Bool, true, false, List, [], ◌∷◌, length,
  length-set, get_or, set, get_or-set_self, get_or-set_ne, replicate, arith, if◌then◌else◌, ◌==◌,
  ltb, ◌⊎◌, inl, inr, Bool-cases, ==_iff,
}
use sendit.Prelude.Int.{
  ℤ, pos, ◌+ℤ◌, ◌-ℤ◌, ◌*ℤ◌, ◌≤ℤ◌, ◌<ℤ◌, int_laws, eq_of_parts, parts_of_eq, *ℤ_parts, pos_part,
  neg_part,
}
use sendit.Task.Selector.{Table, at, pair_up, partition, fill, settle, build, scale, total_weight}
use sendit.Task.Selector.Sums.{sum_to, count, balance, sum_to_congr, balance_neg_cons, balance_zero}
use sendit.Task.Selector.Fill.{
  slot_mass, share, Inv, round, scaled_g, scaled_ne, prob_l, prob_ne, alias_l, alias_ne,
}
use sendit.Task.Selector.Fill.Ended.{fill-Filled}
use sendit.Task.Selector.Stacks.{fresh_table, start-Inv, at-scale}

pub record Bounded (n : ℕ) (one : ℤ) (t : Table) : Type 0 where
  pub nonneg : (i : ℕ) → pos 0 ≤ℤ at t.scaled i
  pub prob_range : (i : ℕ) → (pos 0 ≤ℤ at t.prob i) × (at t.prob i ≤ℤ one)
  pub alias_in : (i : ℕ) → get_or t.alias i 0 < n

module _ (n : ℕ) (one : ℤ) (start : List ℤ) (t : Table) (l g : ℕ) (small large : List ℕ)
    (done : ℕ → Bool) (v : Inv n one start t (l ∷ small) (g ∷ large) done)
    (b : Bounded n one t) where
  low : at t.scaled l <ℤ one
  unfolding count
  low = v.lows l (ground arith)

  high : one ≤ℤ at t.scaled g
  unfolding count
  high = v.highs g (ground arith)

  pair_up-Bounded : Bounded n one (pair_up one t l g)
  pair_up-Bounded = record {
    nonneg = λ i. elim (Bool-cases (i == g)) [
      | inl e ↦ rw ((==_iff i g).0 e, scaled_g v) (omega (int_laws, b.nonneg l, high))
      | inr e ↦ rw (scaled_ne v i (ground arith)) (b.nonneg i)
    ];
    prob_range = λ i. elim (Bool-cases (i == l)) [
      | inl e ↦ rw ((==_iff i l).0 e, prob_l v) (b.nonneg l, omega (arith, low))
      | inr e ↦ rw (prob_ne v i (ground arith)) (b.prob_range i)
    ];
    alias_in = λ i. elim (Bool-cases (i == l)) [
      | inl e ↦ rw ((==_iff i l).0 e, alias_l v) (round v).g_in
      | inr e ↦ rw (alias_ne v i (ground arith)) (b.alias_in i)
    ];
  }

length-settle : (one : ℤ) (is : List ℕ) (p : List ℤ) → length (settle one is p) ≡ length p
unfolding settle
length-settle one [] p = refl
length-settle one (x ∷ is) p = length-settle one is (set p x one) ∙ length-set p x one

at-settle_out :
    (one : ℤ) (is : List ℕ) (p : List ℤ) (i : ℕ) → count i is ≡ 0 → at (settle one is p) i ≡ at p i
unfolding settle count
at-settle_out one [] p i h = refl
at-settle_out one (x ∷ is) p i h =
    at-settle_out one is (set p x one) i (omega (arith, h))
    ∙ get_or-set_ne p x i one (pos 0) (ground arith)

at-settle_in :
    (one : ℤ) (is : List ℕ) (p : List ℤ) (i : ℕ)
    → i < length p
    → 0 < count i is
    → at (settle one is p) i ≡ one
unfolding settle count
at-settle_in one [] p i len h = absurd (omega arith)
at-settle_in one (x ∷ is) p i len h = elim (Bool-cases (ltb 0 (count i is))) [
  | inl e ↦ at-settle_in one is (set p x one) i (omega (arith, length-set p x one)) (ground arith)
  | inr e ↦
      let here : x ≡ i = ground arith in
      at-settle_out one is (set p x one) i (ground arith)
      ∙ rw (← here) (get_or-set_self p x one (pos 0) (rw here len))
]

replicate-at : (n i : ℕ) → at (replicate n (pos 0)) i ≡ pos 0
replicate-at zero i = refl
replicate-at (suc n) zero = refl
replicate-at (suc n) (suc i) = replicate-at n i

replicate-get_or : (n i : ℕ) → ◌≡◌ {A = ℕ} (get_or (replicate n 0) i 0) 0
replicate-get_or zero i = refl
replicate-get_or (suc n) zero = refl
replicate-get_or (suc n) (suc i) = replicate-get_or n i

-- A small stack that is left over would weigh less than it must.
small_empty :
    (one : ℤ) (f : ℕ → ℤ) (s g : List ℕ)
    → ((i : ℕ) → 0 < count i s → f i <ℤ one)
    → balance one f s +ℤ balance one f g ≡ pos 0
    → (s ≡ []) ⊎ (g ≡ [])
    → s ≡ []
unfolding balance
small_empty one f [] g lo e over = refl
small_empty one f (x ∷ s) g lo e (inl nil) = nil
small_empty one f (x ∷ s) g lo e (inr nil) =
    let light : balance one f (x ∷ s) <ℤ pos 0 = balance_neg_cons one f x s lo in
    let e' : balance one f (x ∷ s) +ℤ balance one f [] ≡ pos 0 = rw nil at e in
    absurd (omega (int_laws, parts_of_eq _ _ e'))

module _ (n : ℕ) (one : ℤ) (start : List ℤ) (t : Table) (large : List ℕ) (done : ℕ → Bool)
    (v : Inv n one start t [] large done) where
  abbrev final_prob : List ℤ
  final_prob = settle one large t.prob

  left_over : (i : ℕ) → 0 < count i large → at t.scaled i ≡ one
  unfolding balance
  left_over =
      balance_zero one (at t.scaled) large v.highs (omega (int_laws, parts_of_eq _ _ v.balanced))

  prob_done : (i : ℕ) → i < n → done i ≡ true → at final_prob i ≡ at t.prob i
  unfolding count
  prob_done i hi e = at-settle_out one large t.prob i (ground (arith, v.stacks i))

  prob_left : (i : ℕ) → i < n → done i ≡ false → at final_prob i ≡ one
  unfolding count
  prob_left i hi e =
      at-settle_in one large t.prob i (omega (arith, v.len_prob)) (ground (arith, v.stacks i))

  scaled_left : (i : ℕ) → i < n → done i ≡ false → at t.scaled i ≡ one
  unfolding count
  scaled_left i hi e = left_over i (ground (arith, v.stacks i))

  full_slot :
      (a b : Bool)
      → (if a then one else pos 0) +ℤ (if b then one -ℤ one else pos 0) ≡ (if a then one else pos 0)
  full_slot true true = eq_of_parts _ _ (omega int_laws)
  full_slot true false = eq_of_parts _ _ (omega int_laws)
  full_slot false true = eq_of_parts _ _ (omega int_laws)
  full_slot false false = eq_of_parts _ _ (omega int_laws)

  -- Setting the probabilities that are left to 1.0 changes no share.
  final_share : (j i : ℕ) → i < n → slot_mass one final_prob t.alias j i ≡ share one t done j i
  final_share j i hi = elim (Bool-cases (done i)) [
    | inl e ↦ rw (e, prob_done i hi e)
    | inr e ↦
        rw (e, prob_left i hi e, scaled_left i hi e) (full_slot (i == j) (get_or t.alias i 0 == j))
  ]

  final_mass : (j : ℕ) → j < n → sum_to n (slot_mass one final_prob t.alias j) ≡ at start j
  final_mass j hj = sum_to_congr n _ (share one t done j) (final_share j) ∙ v.mass j hj

  final_range :
      Bounded n one t
      → pos 0 ≤ℤ one
      → (i : ℕ) → i < n
      → (pos 0 ≤ℤ at final_prob i) × (at final_prob i ≤ℤ one)
  final_range b nonneg i hi = elim (Bool-cases (done i)) [
    | inl e ↦ rw (prob_done i hi e) (b.prob_range i)
    | inr e ↦ rw (prob_left i hi e) (nonneg, omega arith)
  ]

mul_mono : (n : ℕ) (w : ℤ) → pos 0 ≤ℤ w → n * neg_part w ≤ n * pos_part w
mul_mono n w h = grind arith

scale-nonneg :
    (n : ℕ) (ws : List ℤ) → ((i : ℕ) → pos 0 ≤ℤ at ws i) → (i : ℕ) → pos 0 ≤ℤ at (scale n ws) i
unfolding scale
scale-nonneg n [] h i = omega arith
scale-nonneg n (w ∷ ws) h zero = omega (int_laws, *ℤ_parts n w, h zero, mul_mono n w (h zero))
scale-nonneg n (w ∷ ws) h (suc i) = scale-nonneg n ws (λ k. h (suc k)) i

-- What `build` makes of the weights.
pub record Built (ws : List ℤ) (table : List ℤ × List ℕ) : Type 0 where
  pub range : (i : ℕ) → i < length ws → (pos 0 ≤ℤ at table.0 i) × (at table.0 i ≤ℤ total_weight ws)
  pub alias_in : (i : ℕ) → get_or table.1 i 0 < length ws
  pub mass :
      (j : ℕ)
      → j < length ws
      → sum_to (length ws) (slot_mass (total_weight ws) table.0 table.1 j)
        ≡ pos (length ws) *ℤ at ws j

fresh-Bounded :
    (ws : List ℤ)
    → 0 < length ws
    → ((i : ℕ) → pos 0 ≤ℤ at ws i)
    → pos 0 ≤ℤ total_weight ws
    → Bounded (length ws) (total_weight ws) (fresh_table (scale (length ws) ws))
fresh-Bounded ws some_weight nonneg total = record {
  nonneg = λ i. scale-nonneg (length ws) ws nonneg i;
  prob_range = λ i. rw (replicate-at (length (scale (length ws) ws)) i) (omega arith, total);
  alias_in = λ i. rw (replicate-get_or (length (scale (length ws) ws)) i) some_weight;
}

pub build-Built :
    (ws : List ℤ)
    → 0 < length ws
    → ((i : ℕ) → pos 0 ≤ℤ at ws i)
    → pos 0 ≤ℤ total_weight ws
    → Built ws (build (total_weight ws) (scale (length ws) ws))
unfolding build
build-Built ws some_weight nonneg total =
    let n = length ws in
    let one = total_weight ws in
    let scaled = scale n ws in
    let stacks = partition one 0 scaled [] [] in
    let r = fill one (fresh_table scaled) stacks.0 stacks.1 in
    let f =
      fill-Filled n one scaled (Bounded n one) (pair_up-Bounded n one scaled) (fresh_table scaled)
        stacks.0 stacks.1 (λ i. false) (start-Inv ws) (fresh-Bounded ws some_weight nonneg total) in
    let nil = small_empty one (at r.0.scaled) r.1 r.2 f.inv.lows f.inv.balanced f.over in
    let v : Inv n one scaled r.0 [] r.2 f.done =
      subst (λ s. Inv n one scaled r.0 s r.2 f.done) nil f.inv in
    record {
      range =
          λ i hi. rw (nil, settle) (final_range n one scaled r.0 r.2 f.done v f.extra total i hi);
      alias_in = f.extra.alias_in;
      mass = λ j hj.
          rw (nil, settle) (final_mass n one scaled r.0 r.2 f.done v j hj ∙ at-scale n ws j hj);
    }
