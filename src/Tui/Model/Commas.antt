-- ===== src/Tui/Model/Commas.antt =====
-- internal/tui/model.go: what `formatInt` does to the digits of a count.
use sendit.Prelude.{
  ℕ, zero, suc, ◌+◌, ◌-◌, ◌*◌, ◌/◌, ◌%◌, ◌==◌, ◌≡◌, refl, sym, ap, ◌∙◌, false, List, [], ◌∷◌, ◌++◌,
  if◌then◌else◌, ltb, leb, length, take, drop, take-append-drop, length-append, length-take, subst,
  some, All, All-append, Bool-cases, inl, inr, arith,
}
use sendit.Prelude.Decimal.{decimal, itoa}
use sendit.Prelude.Text.{Text}
use sendit.Config.TargetsFile.{digits}
use sendit.Driver.Sftp.Key.{digits-decimal}
use sendit.Tui.Model.{comma_groups, group_digits, format_int}

-- A text without its commas, and how many it has.
unfoldable pub without_commas : Text → Text
without_commas [] = []
without_commas (c ∷ s) = let rest = without_commas s in if c == b',' then rest else c ∷ rest

unfoldable pub commas : Text → ℕ
commas [] = 0
commas (c ∷ s) = let rest = commas s in if c == b',' then rest + 1 else rest

abbrev IsPlain : ℕ → Type 0
IsPlain c = (c == b',') ≡ false

decimal-IsPlain : (fuel n : ℕ) → All IsPlain (decimal fuel n)
unfolding decimal
decimal-IsPlain zero n = (ground arith, tt)
decimal-IsPlain (suc fuel) n = elim (Bool-cases (ltb n 10)) [
  | inl small ↦ rw (small, decimal) (ground arith, tt)
  | inr large ↦
      rw (large, decimal)
        (All-append IsPlain (decimal fuel (n / 10)) _ (decimal-IsPlain fuel (n / 10))
          (ground arith, tt))
]

without_commas-append :
    (xs ys : Text) → without_commas (xs ++ ys) ≡ without_commas xs ++ without_commas ys
unfolding without_commas
without_commas-append [] ys = refl
without_commas-append (c ∷ xs) ys = elim (Bool-cases (c == b',')) [
  | inl comma ↦ simp (comma, without_commas) (without_commas-append xs ys)
  | inr plain ↦ simp (plain, without_commas) (ap (◌∷◌ c) (without_commas-append xs ys))
]

commas-append : (xs ys : Text) → commas (xs ++ ys) ≡ commas xs + commas ys
unfolding commas
commas-append [] ys = omega arith
commas-append (c ∷ xs) ys = ground (arith, commas-append xs ys)

plain : (s : Text) → All IsPlain s → (without_commas s ≡ s) × (commas s ≡ 0)
unfolding without_commas commas
plain [] h = (refl, refl)
plain (c ∷ s) h =
    let (same, none_in) = plain s h.1 in
    (rw (h.0, without_commas) (ap (◌∷◌ c) same), rw (h.0, commas) none_in)

groups :
    (k : ℕ) (s : Text)
    → All IsPlain s
    → length s ≡ 3 * k
    → (without_commas (comma_groups s) ≡ s) × (commas (comma_groups s) ≡ k)
unfolding comma_groups without_commas commas
groups zero [] h e = (refl, refl)
groups (suc k) [] h e = absurd (omega (arith, e))
groups k (a ∷ []) h e = absurd (omega (arith, e))
groups k (a ∷ b ∷ []) h e = absurd (omega (arith, e))
groups zero (a ∷ b ∷ c ∷ s) h e = absurd (omega (arith, e))
groups (suc k) (a ∷ b ∷ c ∷ s) h e =
    let (same, count) = groups k s h.1.1.1 (omega (arith, e)) in
    (rw (h.0, h.1.0, h.1.1.0, same) refl, rw (h.0, h.1.0, h.1.1.0, count) (omega arith))

All-split : {A : Type 0} (P : A → Type 0) (xs ys : List A) → All P (xs ++ ys) → All P xs × All P ys
All-split P [] ys h = (tt, h)
All-split P (x ∷ xs) ys h = let (front, back) = All-split P xs ys h.1 in ((h.0, front), back)

first_group : (n : ℕ) → leb n 3 ≡ false → n ≡ (if n % 3 == 0 then 3 else n % 3) + 3 * ((n - 1) / 3)
first_group n long = ground (arith, long)

cut :
    (f k : ℕ) (s : Text)
    → All IsPlain s
    → length s ≡ f + 3 * k
    → (without_commas (take f s ++ comma_groups (drop f s)) ≡ s)
      × (commas (take f s ++ comma_groups (drop f s)) ≡ k)
cut f k s h e =
    let whole = take-append-drop f s in
    let (front, back) =
      All-split IsPlain (take f s) (drop f s) (subst (All IsPlain) (sym whole) h) in
    let size : length (take f s) + length (drop f s) ≡ length s =
      sym (length-append (take f s) (drop f s)) ∙ ap length whole in
    let (same, count) = groups k (drop f s) back (omega (arith, e, size, length-take f s)) in
    let (same', none_in) = plain (take f s) front in
    (
      without_commas-append (take f s) (comma_groups (drop f s)) ∙ rw (same, same') whole,
      commas-append (take f s) (comma_groups (drop f s)) ∙ rw (count, none_in) (omega arith),
    )

-- `formatInt` puts a comma before each group of three digits but the first, and without its commas the text is read as
-- the number that it was made of.
pub digits-format_int :
    (n : ℕ)
    → (without_commas (format_int n) ≡ itoa n)
      × (commas (format_int n) ≡ (length (itoa n) - 1) / 3)
      × (digits 0 (without_commas (format_int n)) ≡ some n)
unfolding format_int group_digits itoa
digits-format_int n =
    let s : Text = decimal n n in
    let h = decimal-IsPlain n n in
    let read = digits-decimal n n (omega arith) in
    elim (Bool-cases (leb (length s) 3)) [
      | inl short ↦
          let (same, none_in) = plain s h in
          simp (short, same, none_in, read) (refl, ground (arith, short), refl)
      | inr long ↦
          let f : ℕ = if length s % 3 == 0 then 3 else length s % 3 in
          let size : length s ≡ f + 3 * ((length s - 1) / 3) = first_group (length s) long in
          let (same, count) = cut f ((length s - 1) / 3) s h size in
          simp (long, same, count, read) (refl, refl, refl)
    ]
