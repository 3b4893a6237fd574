-- ===== src/Prelude/Family.antt =====
-- Goroutines numbered from 0: their states as a function of the number, one state replaced, and
-- what the first `n` of them hold together.
use Prim.Native.Nat.{ℕ, zero, suc, ◌+◌, ◌≤◌, ◌<◌}
use mathlib.Core.Path.{◌≡◌, refl}
use mathlib.Core.Logic.{inl, inr}
use native.Mathlib.Omega.{arith}
use sendit.Prelude.Tests.{◌==◌, if◌then◌else◌, Bool-cases}

abbrev pub update {ℓ} : {A : Type ℓ} → (ℕ → A) → ℕ → A → ℕ → A
update f i a j = if i == j then a else f j

module _ {ℓ} {A : Type ℓ} (hold : A → ℕ) where
  pub tally : ℕ → (ℕ → A) → ℕ
  tally zero f = 0
  tally (suc n) f = hold (f n) + tally n f

  tally-update_out :
      (n : ℕ) (f : ℕ → A) (i : ℕ) (a : A) → n ≤ i → tally n (update f i a) ≡ tally n f
  unfolding tally
  tally-update_out zero f i a h = refl
  tally-update_out (suc n) f i a h = ground (arith, tally-update_out n f i a)

  -- Replacing one state changes the tally by what that state holds.
  pub tally-update :
      (n : ℕ) (f : ℕ → A) (i : ℕ) (a : A)
      → i < n
      → tally n (update f i a) + hold (f i) ≡ tally n f + hold a
  unfolding tally
  tally-update zero f i a h = absurd (omega arith)
  tally-update (suc n) f i a h = elim (Bool-cases (i == n)) [
    | inl last ↦ ground (arith, tally-update_out n f i a)
    | inr below ↦ ground (arith, tally-update n f i a)
  ]

  -- One of the first `n` holds no more than all of them.
  pub hold-le-tally : (n : ℕ) (f : ℕ → A) (i : ℕ) → i < n → hold (f i) ≤ tally n f
  unfolding tally
  hold-le-tally zero f i h = absurd (omega arith)
  hold-le-tally (suc n) f i h = elim (Bool-cases (i == n)) [
    | inl last ↦ ground arith
    | inr below ↦ ground (arith, hold-le-tally n f i)
  ]

  pub tally_zero : (n : ℕ) (f : ℕ → A) → ((i : ℕ) → i < n → hold (f i) ≡ 0) → tally n f ≡ 0
  unfolding tally
  tally_zero zero f h = refl
  tally_zero (suc n) f h =
      omega (arith, h n (omega arith), tally_zero n f (λ i hi. h i (omega arith)))

  pub tally-le : (n : ℕ) (f : ℕ → A) → ((a : A) → hold a ≤ 1) → tally n f ≤ n
  unfolding tally
  tally-le zero f h = omega arith
  tally-le (suc n) f h = omega (arith, h (f n), tally-le n f h)

  -- If the tally is positive, somebody holds something.
  pub tally_pos : (n : ℕ) (f : ℕ → A) → 0 < tally n f → (i : ℕ) × (i < n) × (0 < hold (f i))
  unfolding tally
  tally_pos zero f h = absurd (omega arith)
  tally_pos (suc n) f h = elim (Bool-cases (hold (f n) == 0)) [
    | inl none_here ↦ let (i, hi, held) = tally_pos n f (ground arith) in (i, omega arith, held)
    | inr here ↦ (n, omega arith, ground arith)
  ]

-- What is held of one kind is held of the other, if that is so of each state.
pub tally_mono {ℓ} :
    {A : Type ℓ} (hold hold' : A → ℕ)
    → ((a : A) → hold a ≤ hold' a)
    → (n : ℕ) (f : ℕ → A) → tally hold n f ≤ tally hold' n f
unfolding tally
tally_mono hold hold' h zero f = omega arith
tally_mono hold hold' h (suc n) f = omega (arith, h (f n), tally_mono hold hold' h n f)
