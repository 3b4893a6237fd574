-- ===== src/Task/Selector/Fill.antt =====
-- The invariant of the main loop of `NewSelector`, and that a round keeps it.
-- `done` marks the slots that have got their probability and alias.
pub mod Ended
use sendit.Prelude.{
  ℕ, ◌+◌, ◌<◌, ◌≡◌, ◌≢◌, refl, sym, ap, ◌∙◌, ◌⊎◌, Bool, true, false, not, ◌&&◌, List, [], ◌∷◌,
  length, length-set, get_or, get_or-set_self, get_or-set_ne, arith, if◌then◌else◌, ◌==◌, ltb, inl,
  inr, Bool-cases, ==_iff,
}
use sendit.Prelude.Int.{
  ℤ, pos, ◌+ℤ◌, ◌-ℤ◌, ◌≤ℤ◌, ◌<ℤ◌, ltb_ℤ, int_laws, eq_of_parts, parts_of_eq, ltb_ℤ→lt, ltb_ℤ→ge,
}
use sendit.Task.Selector.{Table, at, pair_up, fill}
use sendit.Task.Selector.Sums.{sum_to, count, balance, sum_to_update, balance_congr}

-- What a finished slot `i` gives to target `j`: its own share, and the rest to its alias.
abbrev pub slot_mass : ℤ → List ℤ → List ℕ → ℕ → ℕ → ℤ
slot_mass one prob alias j i =
    (if i == j then at prob i else pos 0)
    +ℤ (if get_or alias i 0 == j then one -ℤ at prob i else pos 0)

-- A slot that is not finished still holds its scaled weight for itself.
abbrev pub share : ℤ → Table → (ℕ → Bool) → ℕ → ℕ → ℤ
share one t done j i =
    if done i then slot_mass one t.prob t.alias j i else (if i == j then at t.scaled i else pos 0)

abbrev pub open_slot : ℕ → (ℕ → Bool) → ℕ → ℕ
open_slot n done i = if ltb i n && not (done i) then 1 else 0

pub record Inv (n : ℕ) (one : ℤ) (start : List ℤ) (t : Table) (small large : List ℕ)
    (done : ℕ → Bool) : Type 0 where
  pub len_scaled : length t.scaled ≡ n
  pub len_prob : length t.prob ≡ n
  pub len_alias : length t.alias ≡ n
  pub stacks : (i : ℕ) → count i small + count i large ≡ open_slot n done i
  pub lows : (i : ℕ) → 0 < count i small → at t.scaled i <ℤ one
  pub highs : (i : ℕ) → 0 < count i large → one ≤ℤ at t.scaled i
  pub balanced : balance one (at t.scaled) small +ℤ balance one (at t.scaled) large ≡ pos 0
  pub mass : (j : ℕ) → j < n → sum_to n (share one t done j) ≡ at start j

-- The rest that `l` gives away makes up for what `g` loses, whichever target `g` is.
give_away :
    (b : Bool) (a x y one : ℤ)
    → (a +ℤ (if b then one -ℤ x else pos 0)) +ℤ (if b then (y +ℤ x) -ℤ one else pos 0)
      ≡ a +ℤ (if b then y else pos 0)
give_away true a x y one = omega int_laws
give_away false a x y one = omega int_laws

abbrev pub mark : (ℕ → Bool) → ℕ → ℕ → Bool
mark done l i = if i == l then true else done i

module _ {n : ℕ} {one : ℤ} {start : List ℤ} {t : Table} {l g : ℕ} {small large : List ℕ}
    {done : ℕ → Bool} (v : Inv n one start t (l ∷ small) (g ∷ large) done) where
  -- The two slots of a round are different open slots, and are on neither stack any more.
  pub record Round : Type 0 where
    pub l_in : l < n
    pub g_in : g < n
    pub l_ne_g : l ≢ g
    pub l_open : done l ≡ false
    pub g_open : done g ≡ false
    pub l_gone : (count l small ≡ 0) × (count l large ≡ 0)
    pub g_gone : (count g small ≡ 0) × (count g large ≡ 0)

  pub round : Round
  unfolding count
  round = record {
    l_in = ground (arith, v.stacks l);
    g_in = ground (arith, v.stacks g);
    l_ne_g = ground (arith, v.stacks l);
    l_open = ground (arith, v.stacks l);
    g_open = ground (arith, v.stacks g);
    l_gone = ground (arith, v.stacks l);
    g_gone = ground (arith, v.stacks g);
  }

  abbrev next : Table
  next = pair_up one t l g

  pub scaled_g : at next.scaled g ≡ (at t.scaled g +ℤ at t.scaled l) -ℤ one
  unfolding pair_up
  scaled_g = get_or-set_self t.scaled g _ (pos 0) (omega (arith, round.g_in, v.len_scaled))

  pub scaled_ne : (i : ℕ) → i ≢ g → at next.scaled i ≡ at t.scaled i
  unfolding pair_up
  scaled_ne i h = get_or-set_ne t.scaled g i _ (pos 0) (λ e. h (sym e))

  pub prob_l : at next.prob l ≡ at t.scaled l
  unfolding pair_up
  prob_l = get_or-set_self t.prob l _ (pos 0) (omega (arith, round.l_in, v.len_prob))

  pub prob_ne : (i : ℕ) → i ≢ l → at next.prob i ≡ at t.prob i
  unfolding pair_up
  prob_ne i h = get_or-set_ne t.prob l i _ (pos 0) (λ e. h (sym e))

  pub alias_l : get_or next.alias l 0 ≡ g
  unfolding pair_up
  alias_l = get_or-set_self t.alias l g 0 (omega (arith, round.l_in, v.len_alias))

  pub alias_ne : (i : ℕ) → i ≢ l → get_or next.alias i 0 ≡ get_or t.alias i 0
  unfolding pair_up
  alias_ne i h = get_or-set_ne t.alias l i g 0 (λ e. h (sym e))

  -- A share changes at `l` and `g` only.
  share_ne : (j i : ℕ) → i ≢ l → i ≢ g → share one t done j i ≡ share one next (mark done l) j i
  share_ne j i hl hg = ground (arith, scaled_ne i hg, prob_ne i hl, alias_ne i hl)

  -- What slot `l` gives away, slot `g` no longer holds.
  share_two :
      (j : ℕ)
      → share one next (mark done l) j l +ℤ share one next (mark done l) j g
        ≡ share one t done j l +ℤ share one t done j g
  share_two j =
      let new_l : share one next (mark done l) j l
          ≡ (if l == j then at t.scaled l else pos 0)
            +ℤ (if g == j then one -ℤ at t.scaled l else pos 0) =
        ground (arith, prob_l, alias_l) in
      let new_g : share one next (mark done l) j g
          ≡ (if g == j then (at t.scaled g +ℤ at t.scaled l) -ℤ one else pos 0) =
        ground (arith, scaled_g, round.g_open, round.l_ne_g) in
      let old_l : share one t done j l ≡ (if l == j then at t.scaled l else pos 0) =
        ground (arith, round.l_open) in
      let old_g : share one t done j g ≡ (if g == j then at t.scaled g else pos 0) =
        ground (arith, round.g_open) in
      rw (new_l, new_g, old_l, old_g) (give_away (g == j) _ (at t.scaled l) (at t.scaled g) one)

  pub mass_kept :
      (j : ℕ) → sum_to n (share one next (mark done l) j) ≡ sum_to n (share one t done j)
  mass_kept j =
      let f : ℕ → ℤ = share one t done j in
      let h : ℕ → ℤ = share one next (mark done l) j in
      let mid : ℕ → ℤ = λ i. if i == l then h i else f i in
      let first : sum_to n mid +ℤ f l ≡ sum_to n f +ℤ mid l =
        sum_to_update n f mid l (λ i ne. ground arith) round.l_in in
      let second : sum_to n h +ℤ mid g ≡ sum_to n mid +ℤ h g =
        sum_to_update n mid h g (λ i ne. ground (arith, share_ne j i)) round.g_in in
      let mid_l : mid l ≡ h l = ground arith in
      let mid_g : mid g ≡ f g = ground (arith, round.l_ne_g) in
      omega (
        int_laws,
        parts_of_eq _ _ first,
        parts_of_eq _ _ second,
        parts_of_eq _ _ mid_l,
        parts_of_eq _ _ mid_g,
        parts_of_eq _ _ (share_two j),
      )

  pub balance_kept :
      balance one (at next.scaled) small
        +ℤ balance one (at next.scaled) large
        +ℤ (at next.scaled g -ℤ one)
      ≡ pos 0
  unfolding balance
  balance_kept =
      let off : (is : List ℕ)
          → count g is ≡ 0
          → balance one (at next.scaled) is ≡ balance one (at t.scaled) is =
        λ is gone.
          balance_congr one _ _ is
            (λ i hi. scaled_ne i (λ e. absurd (omega (arith, ap (λ k. count k is) e)))) in
      omega (
        int_laws,
        parts_of_eq _ _ v.balanced,
        parts_of_eq _ _ (off small round.g_gone.0),
        parts_of_eq _ _ (off large round.g_gone.1),
        parts_of_eq _ _ scaled_g,
      )

  kept_slots :
      (i : ℕ)
      → count i small + count i large + (if g == i then 1 else 0) ≡ open_slot n (mark done l) i
  unfolding count
  kept_slots i = ground (arith, v.stacks i, round.l_gone, round.l_in, round.l_ne_g)

  len_next : (length next.scaled ≡ n) × (length next.prob ≡ n) × (length next.alias ≡ n)
  unfolding pair_up
  len_next = (
    length-set t.scaled g _ ∙ v.len_scaled,
    length-set t.prob l _ ∙ v.len_prob,
    length-set t.alias l g ∙ v.len_alias,
  )

  lows_kept : (i : ℕ) → 0 < count i small → at next.scaled i <ℤ one
  unfolding count
  lows_kept i h = elim (Bool-cases (i == g)) [
    | inl e ↦
        absurd
          (ground (arith, round.g_gone, ==_iff i g, ap (λ k. count k small) ((==_iff i g).0 e)))
    | inr e ↦ rw (scaled_ne i (ground arith)) (v.lows i (omega arith))
  ]

  highs_kept : (i : ℕ) → 0 < count i large → one ≤ℤ at next.scaled i
  unfolding count
  highs_kept i h = elim (Bool-cases (i == g)) [
    | inl e ↦
        absurd
          (ground (arith, round.g_gone, ==_iff i g, ap (λ k. count k large) ((==_iff i g).0 e)))
    | inr e ↦ rw (scaled_ne i (ground arith)) (v.highs i (omega arith))
  ]

  -- The larger slot goes on the small stack.
  pub down-Inv : at next.scaled g <ℤ one → Inv n one start next (g ∷ small) large (mark done l)
  unfolding count balance
  down-Inv low = record {
    len_scaled = len_next.0;
    len_prob = len_next.1;
    len_alias = len_next.2;
    stacks = λ i. omega (arith, kept_slots i);
    lows = λ i h. elim (Bool-cases (g == i)) [
      | inl e ↦ rw (← (==_iff g i).0 e) low
      | inr e ↦ lows_kept i (ground arith)
    ];
    highs = highs_kept;
    balanced = eq_of_parts _ _ (omega (int_laws, parts_of_eq _ _ balance_kept));
    mass = λ j hj. mass_kept j ∙ v.mass j hj;
  }

  -- The larger slot stays on the large stack.
  pub stay-Inv : one ≤ℤ at next.scaled g → Inv n one start next small (g ∷ large) (mark done l)
  unfolding count balance
  stay-Inv high = record {
    len_scaled = len_next.0;
    len_prob = len_next.1;
    len_alias = len_next.2;
    stacks = λ i. omega (arith, kept_slots i);
    lows = lows_kept;
    highs = λ i h. elim (Bool-cases (g == i)) [
      | inl e ↦ rw (← (==_iff g i).0 e) high
      | inr e ↦ highs_kept i (ground arith)
    ];
    balanced = eq_of_parts _ _ (omega (int_laws, parts_of_eq _ _ balance_kept));
    mass = λ j hj. mass_kept j ∙ v.mass j hj;
  }
