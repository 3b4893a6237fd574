-- ===== src/Prelude/Decimal.antt =====
-- `strconv.Itoa` and `%d` on natural numbers, and on integers.
use sendit.Prelude.Tests.{ltb}
use sendit.Prelude.Text.{Text}
use sendit.Prelude.Int.{ℤ, pos, negsuc}
use Prim.Native.Nat.{ℕ, zero, suc, ◌+◌, ◌/◌, ◌%◌}
use mathlib.Core.Bool.{true, false}
use mathlib.Core.List.{[], ◌∷◌, ◌++◌}

-- At most one digit for each unit of fuel.
unfoldable pub decimal : ℕ → ℕ → Text
decimal zero n = (b'0' + n % 10) ∷ []
decimal (suc fuel) n = elim (ltb n 10) [
  | true ↦ (b'0' + n) ∷ []
  | false ↦ decimal fuel (n / 10) ++ ((b'0' + n % 10) ∷ [])
]

unfoldable pub itoa : ℕ → Text
unfolding decimal
itoa n = decimal n n

unfoldable pub itoa_ℤ : ℤ → Text
unfolding itoa
itoa_ℤ (pos n) = itoa n
itoa_ℤ (negsuc n) = b'-' ∷ itoa (suc n)
