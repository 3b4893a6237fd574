-- ===== src/Task/Selector/Sums.antt =====
-- Sums of integers over the slots of a table and over a stack, for the proofs about `Selector`.
use sendit.Prelude.{
  ℕ, zero, suc, ◌+◌, ◌<◌, ◌≡◌, ◌≢◌, refl, List, [], ◌∷◌, arith, if◌then◌else◌, ◌==◌, inl, inr,
  Bool-cases, ==_iff,
}
use sendit.Prelude.Int.{ℤ, pos, ◌+ℤ◌, ◌-ℤ◌, ◌≤ℤ◌, ◌<ℤ◌, int_laws, eq_of_parts, parts_of_eq}

unfoldable pub sum_to : ℕ → (ℕ → ℤ) → ℤ
sum_to zero f = pos 0
sum_to (suc n) f = sum_to n f +ℤ f n

unfoldable pub count : ℕ → List ℕ → ℕ
count x [] = 0
count x (y ∷ ys) = (if y == x then 1 else 0) + count x ys

-- The sum of `f i - one` over a stack.
unfoldable pub balance : ℤ → (ℕ → ℤ) → List ℕ → ℤ
balance one f [] = pos 0
balance one f (i ∷ is) = (f i -ℤ one) +ℤ balance one f is

pub sum_to_congr : (n : ℕ) (f g : ℕ → ℤ) → ((i : ℕ) → i < n → f i ≡ g i) → sum_to n f ≡ sum_to n g
unfolding sum_to
sum_to_congr zero f g h = refl
sum_to_congr (suc n) f g h =
    ground (arith, h n (omega arith), sum_to_congr n f g (λ i hi. h i (omega arith)))

-- Two families that differ at one index at most.
pub sum_to_update :
    (n : ℕ) (f g : ℕ → ℤ) (l : ℕ)
    → ((i : ℕ) → i ≢ l → f i ≡ g i)
    → l < n
    → sum_to n g +ℤ f l ≡ sum_to n f +ℤ g l
unfolding sum_to
sum_to_update zero f g l h lt = absurd (omega arith)
sum_to_update (suc n) f g l h lt = elim (Bool-cases (n == l)) [
  | inl e ↦
      let same : sum_to n f ≡ sum_to n g = sum_to_congr n f g (λ i hi. h i (ground arith)) in
      let at_l : n ≡ l = (==_iff n l).0 e in rw (same, at_l) (omega int_laws)
  | inr e ↦
      let rest : sum_to n g +ℤ f l ≡ sum_to n f +ℤ g l = sum_to_update n f g l h (ground arith) in
      let here : f n ≡ g n = h n (ground arith) in rw here (omega (int_laws, parts_of_eq _ _ rest))
]

pub balance_congr :
    (one : ℤ) (f g : ℕ → ℤ) (is : List ℕ)
    → ((i : ℕ) → 0 < count i is → f i ≡ g i)
    → balance one f is ≡ balance one g is
unfolding balance count
balance_congr one f g [] h = refl
balance_congr one f g (x ∷ is) h =
    let here : f x ≡ g x = h x (ground arith) in
    let rest : balance one f is ≡ balance one g is =
      balance_congr one f g is (λ i hi. h i (omega arith)) in
    rw (here, rest)

-- A stack of entries that are all below `one` has a negative balance, unless it is empty.
pub balance_neg :
    (one : ℤ) (f : ℕ → ℤ) (is : List ℕ)
    → ((i : ℕ) → 0 < count i is → f i <ℤ one)
    → balance one f is ≤ℤ pos 0
unfolding balance count
balance_neg one f [] h = omega arith
balance_neg one f (x ∷ is) h =
    let here : f x <ℤ one = h x (ground arith) in
    omega (int_laws, balance_neg one f is (λ i hi. h i (omega arith)))

pub balance_neg_cons :
    (one : ℤ) (f : ℕ → ℤ) (x : ℕ) (is : List ℕ)
    → ((i : ℕ) → 0 < count i (x ∷ is) → f i <ℤ one)
    → balance one f (x ∷ is) <ℤ pos 0
unfolding balance count
balance_neg_cons one f x is h =
    let here : f x <ℤ one = h x (ground arith) in
    omega (int_laws, balance_neg one f is (λ i hi. h i (omega arith)))

pub balance_nonneg :
    (one : ℤ) (f : ℕ → ℤ) (is : List ℕ)
    → ((i : ℕ) → 0 < count i is → one ≤ℤ f i)
    → pos 0 ≤ℤ balance one f is
unfolding balance count
balance_nonneg one f [] h = omega arith
balance_nonneg one f (x ∷ is) h =
    let here : one ≤ℤ f x = h x (ground arith) in
    omega (int_laws, balance_nonneg one f is (λ i hi. h i (omega arith)))

-- If no entry is below `one` and the balance is 0, every entry is `one`.
pub balance_zero :
    (one : ℤ) (f : ℕ → ℤ) (is : List ℕ)
    → ((i : ℕ) → 0 < count i is → one ≤ℤ f i)
    → balance one f is ≤ℤ pos 0
    → (i : ℕ) → 0 < count i is
    → f i ≡ one
unfolding balance count
balance_zero one f [] h z i hi = absurd (omega arith)
balance_zero one f (x ∷ is) h z i hi =
    let here : one ≤ℤ f x = h x (ground arith) in
    let rest : pos 0 ≤ℤ balance one f is = balance_nonneg one f is (λ k hk. h k (omega arith)) in
    let fx : f x ≡ one = eq_of_parts _ _ (omega int_laws) in
    let small : balance one f is ≤ℤ pos 0 = omega int_laws in
    elim (Bool-cases (x == i)) [
      | inl e ↦ let at_x : x ≡ i = (==_iff x i).0 e in rw at_x at fx
      | inr e ↦ balance_zero one f is (λ k hk. h k (omega arith)) small i (ground arith)
    ]
