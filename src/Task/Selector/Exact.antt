-- ===== src/Task/Selector/Exact.antt =====
-- What `Pick` does with a table that `NewSelector` has built.
use sendit.Prelude.{
  ℕ, zero, suc, ◌+◌, ◌-◌, ◌<◌, ◌≡◌, ◌≢◌, refl, ap, subst, ◌∙◌, Bool, true, false, List, [], ◌∷◌,
  some, length, get_or, get_elem?, arith, if◌then◌else◌, ◌==◌, ltb, inl, inr, Bool-cases, min, ok,
  err, ok-injective, ◌↔◌, All,
}
use sendit.Prelude.Int.{
  ℤ, pos, ◌+ℤ◌, ◌-ℤ◌, ◌*ℤ◌, ◌≤ℤ◌, ◌<ℤ◌, ltb_ℤ, leb_ℤ, int_laws, eq_of_parts, parts_of_eq, pos_part,
  neg_part, neg_part_zero, ltb_ℤ_pos,
}
use sendit.Config.Schema.{TargetConfig}
use sendit.Task.Selector.{
  Selector, at, weights, total_weight, scale, build, new_selector, pick_index, pick, no_weight,
}
use sendit.Task.Selector.Sums.{sum_to}
use sendit.Task.Selector.Fill.{slot_mass}
use sendit.Task.Selector.Settled.{Built, build-Built}

-- How many of the draws 0, 1, …, k - 1 pick target `j` at slot `i`.
pub draws : Selector → ℕ → ℕ → ℕ → ℕ
draws s i j zero = 0
draws s i j (suc k) = draws s i j k + (if pick_index s i (pos k) == j then 1 else 0)

-- How many pairs of one of the first `m` slots and a draw below 1.0 pick target `j`.
pub hits : Selector → ℕ → ℕ → ℕ
hits s j zero = 0
hits s j (suc m) = hits s j m + draws s m j (pos_part s.one)

-- No weight is negative, as `validate` makes sure of.
abbrev pub IsWeighed : List TargetConfig → Type 0
IsWeighed = All (λ t. pos 0 ≤ℤ t.weight)

-- One more draw falls to `i` below the probability `p`, and to the alias from there on.
one_more :
    (i a j k p : ℕ)
    → (if i == j then min k p else 0)
        + (if a == j then k - p else 0)
        + (if (if ltb k p then i else a) == j then 1 else 0)
      ≡ (if i == j then min (suc k) p else 0) + (if a == j then suc k - p else 0)
one_more i a j k p = elim (Bool-cases (ltb k p)) [
  | inl e ↦ rw e (ground arith)
  | inr e ↦ rw e (ground arith)
]

draws_lem :
    (s : Selector) (i j k : ℕ)
    → pos 0 ≤ℤ at s.prob i
    → draws s i j k
      ≡ (if i == j then min k (pos_part (at s.prob i)) else 0)
        + (if get_or s.alias i 0 == j then k - pos_part (at s.prob i) else 0)
unfolding draws pick_index
draws_lem s i j zero h = ground arith
draws_lem s i j (suc k) h =
    rw (draws_lem s i j k h, ltb_ℤ_pos k (at s.prob i) h)
      (one_more i (get_or s.alias i 0) j k (pos_part (at s.prob i)))

-- Over all draws below 1.0 this is what the slot gives to the target.
draws-slot_mass :
    (s : Selector) (i j : ℕ)
    → pos 0 ≤ℤ at s.prob i
    → at s.prob i ≤ℤ s.one
    → pos (draws s i j (pos_part s.one)) ≡ slot_mass s.one s.prob s.alias j i
draws-slot_mass s i j lo hi =
    rw (draws_lem s i j (pos_part s.one) lo) (split (i == j) (get_or s.alias i 0 == j))
  where
    nonneg : (neg_part s.one ≡ 0) × (neg_part (at s.prob i) ≡ 0)
    nonneg = (neg_part_zero s.one (omega arith), neg_part_zero (at s.prob i) lo)

    split :
        (a b : Bool)
        → pos (
            (if a then min (pos_part s.one) (pos_part (at s.prob i)) else 0)
            + (if b then pos_part s.one - pos_part (at s.prob i) else 0))
          ≡ (if a then at s.prob i else pos 0) +ℤ (if b then s.one -ℤ at s.prob i else pos 0)
    split true true = eq_of_parts _ _ (omega (int_laws, nonneg))
    split true false = eq_of_parts _ _ (omega (int_laws, nonneg))
    split false true = eq_of_parts _ _ (omega (int_laws, nonneg))
    split false false = eq_of_parts _ _ (omega (int_laws, nonneg))

hits-sum_to :
    (s : Selector) (j m : ℕ)
    → ((i : ℕ) → i < m → (pos 0 ≤ℤ at s.prob i) × (at s.prob i ≤ℤ s.one))
    → pos (hits s j m) ≡ sum_to m (slot_mass s.one s.prob s.alias j)
unfolding hits sum_to
hits-sum_to s j zero h = refl
hits-sum_to s j (suc m) h =
    let here = draws-slot_mass s m j (h m (omega arith)).0 (h m (omega arith)).1 in
    let rest = hits-sum_to s j m (λ i hi. h i (omega arith)) in
    eq_of_parts _ _ (omega (int_laws, parts_of_eq _ _ here, parts_of_eq _ _ rest))

at-weights : (ts : List TargetConfig) → IsWeighed ts → (i : ℕ) → pos 0 ≤ℤ at (weights ts) i
at-weights [] h i = omega arith
at-weights (t ∷ ts) h zero = h.0
at-weights (t ∷ ts) h (suc i) = at-weights ts h.1 i

-- A selector that was built, with what its construction says of it.
record Made (ts : List TargetConfig) (s : Selector) : Type 0 where
  targets : s.targets ≡ ts
  slots : s.n ≡ length (weights ts)
  unit : s.one ≡ total_weight (weights ts)
  positive : pos 0 ≤ℤ s.one
  table : Built (weights ts) (s.prob, s.alias)

made :
    (t : TargetConfig) (ts : List TargetConfig) (s : Selector)
    → IsWeighed (t ∷ ts)
    → (b : Bool) → b ≡ leb_ℤ (total_weight (weights (t ∷ ts))) (pos 0)
    → (let ws = weights (t ∷ ts) in
        let table = build (total_weight ws) (scale (length ws) ws) in
        (if b
          then err no_weight
          else ok (record {
            targets = t ∷ ts;
            alias = table.1;
            prob = table.0;
            n = length ws;
            one = total_weight ws;
          }))
        ≡ ok s)
    → Made (t ∷ ts) s
made t ts s w true eb e = cc
made t ts s w false eb e =
    let ws = weights (t ∷ ts) in
    let total : pos 0 ≤ℤ total_weight ws = ground (arith, eb) in
    subst (Made (t ∷ ts)) (ok-injective _ _ e) (record {
      targets = refl;
      slots = refl;
      unit = refl;
      positive = total;
      table = build-Built ws (omega arith) (at-weights (t ∷ ts) w) total;
    })

new_selector-Made :
    (ts : List TargetConfig) (s : Selector) → IsWeighed ts → new_selector ts ≡ ok s → Made ts s
unfolding new_selector
new_selector-Made [] s w e = cc
new_selector-Made (t ∷ ts) s w e = made t ts s w _ refl e

-- Whatever the targets, if no weight is negative and the construction succeeds, then among all
-- pairs of a slot and a draw below 1.0, those on which `Pick` takes target `j` are
-- `n * weight j` of the `n * total` that there are: each target is picked exactly in proportion
-- to its weight.
pub hits-new_selector :
    (ts : List TargetConfig) (s : Selector)
    → IsWeighed ts
    → new_selector ts ≡ ok s
    → (j : ℕ) → j < length (weights ts)
    → pos (hits s j s.n) ≡ pos (length (weights ts)) *ℤ at (weights ts) j
hits-new_selector ts s w e j hj =
    let m = new_selector-Made ts s w e in
    let range : (i : ℕ) → i < s.n → (pos 0 ≤ℤ at s.prob i) × (at s.prob i ≤ℤ s.one) =
      λ i hi. rw m.unit (m.table.range i (omega (arith, m.slots))) in
    hits-sum_to s j s.n range ∙ rw (m.slots, m.unit) (m.table.mass j hj)

get_elem?-in-range :
    (ts : List TargetConfig) (i : ℕ)
    → i < length (weights ts)
    → (t : TargetConfig) × (get_elem? ts i ≡ some t)
get_elem?-in-range [] i h = absurd (omega arith)
get_elem?-in-range (t ∷ ts) zero h = (t, refl)
get_elem?-in-range (t ∷ ts) (suc i) h = get_elem?-in-range ts i (omega arith)

pick_lem :
    (s : Selector) (i : ℕ) (r : ℤ) (t : TargetConfig)
    → get_elem? s.targets (pick_index s i r) ≡ some t
    → pick s i r ≡ some (record { url = t.url; kind = t.kind; config = t })
unfolding pick
pick_lem s i r t e = rw (e, pick)

-- If no weight is negative and the construction succeeds, then `Pick` is never out of range: for
-- every slot and every draw it returns the task of one of the targets, the one at the index chosen.
pub pick-new_selector :
    (ts : List TargetConfig) (s : Selector)
    → IsWeighed ts
    → new_selector ts ≡ ok s
    → (i : ℕ) (r : ℤ) → i < s.n
    → (t : TargetConfig) × (get_elem? ts (pick_index s i r) ≡ some t)
      × (pick s i r ≡ some (record { url = t.url; kind = t.kind; config = t }))
unfolding pick_index
pick-new_selector ts s w e i r hi =
    let m = new_selector-Made ts s w e in
    let inside : pick_index s i r < length (weights ts) = index m in
    let (t, found) = get_elem?-in-range ts (pick_index s i r) inside in
    (t, found, pick_lem s i r t (ap (λ l. get_elem? l (pick_index s i r)) m.targets ∙ found))
  where
    index : Made ts s → pick_index s i r < length (weights ts)
    index m = elim (Bool-cases (ltb_ℤ r (at s.prob i))) [
      | inl e ↦ rw (e, pick_index) (omega (arith, m.slots))
      | inr e ↦ rw (e, pick_index) (m.table.alias_in i)
    ]

ok_of_false {ℓ κ} :
    {E : Type κ} {A : Type ℓ} (b : Bool)
    → b ≡ false
    → (e : E) (a : A) → (x : A) × ((if b then err e else ok a) ≡ ok x)
ok_of_false b h e a = (a, rw h)

-- `NewSelector` succeeds exactly on a list of targets with a positive total weight.
pub new_selector_iff :
    (ts : List TargetConfig)
    → ((s : Selector) × (new_selector ts ≡ ok s))
      ↔ ((ts ≢ []) × (pos 0 <ℤ total_weight (weights ts)))
unfolding new_selector
new_selector_iff [] = (λ h. cc h.1, λ h. absurd (h.0 refl))
new_selector_iff (t ∷ ts) =
    (λ h. (λ e. cc, ground (arith, h.1)), λ h. ok_of_false _ (ground (arith, h.1)) no_weight _)
