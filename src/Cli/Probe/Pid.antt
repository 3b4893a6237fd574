-- ===== src/Cli/Probe/Pid.antt =====
-- cmd/sendit/main.go: the PID file.
use sendit.Prelude.{
  ℕ, zero, suc, ◌+◌, ◌^◌, ◌/◌, ◌%◌, ◌<◌, ◌≡◌, refl, ◌≢◌, ◌==◌, true, false, ◌&&◌, [], ◌∷◌, ◌++◌,
  some, ltb, leb, lt→ltb, arith, Bool-cases, inl, inr,
}
use sendit.Prelude.Int.{pos}
use sendit.Prelude.Decimal.{decimal, itoa}
use sendit.Prelude.Text.{Text}
use sendit.Config.TargetsFile.{digits, natural, atoi}
use sendit.Driver.Sftp.Key.{digits-decimal}
use sendit.Cli.Probe.{write_pid, read_pid}

first_digit : (m n c : ℕ) (s : Text) → digits m (c ∷ s) ≡ some n → (leb b'0' c && leb c b'9') ≡ true
unfolding digits
first_digit m n c s e = elim (Bool-cases (leb b'0' c && leb c b'9')) [
  | inl digit ↦ digit
  | inr other ↦ absurd (cc (rw other at e))
]

-- A text that is read as a number from 0 on, and is not empty, has no sign.
atoi-digits : (s : Text) (n : ℕ) → digits 0 s ≡ some n → s ≢ [] → n < 2 ^ 63 → atoi s ≡ some (pos n)
unfolding atoi natural
atoi-digits [] n e given small = absurd (given refl)
atoi-digits (c ∷ s) n e given small =
    let digit = first_digit 0 n c s e in
    let no_minus : (c == b'-') ≡ false = ground (arith, digit) in
    let no_plus : (c == b'+') ≡ false = ground (arith, digit) in
    let fits : ltb n (2 ^ 63) ≡ true = lt→ltb n (2 ^ 63) small in
    rw (no_minus, no_plus, e, fits) refl

snoc-not_empty : (s : Text) (c : ℕ) → s ++ (c ∷ []) ≢ []
snoc-not_empty [] c = λ e. cc e
snoc-not_empty (d ∷ s) c = λ e. cc e

pub decimal-not_empty : (fuel n : ℕ) → decimal fuel n ≢ []
unfolding decimal
decimal-not_empty zero n = λ e. cc e
decimal-not_empty (suc fuel) n = elim (Bool-cases (ltb n 10)) [
  | inl small ↦ rw (small, decimal) (λ e. cc e)
  | inr large ↦ rw (large, decimal) (snoc-not_empty (decimal fuel (n / 10)) (b'0' + n % 10))
]

-- `readPID` reads the number that `writePID` wrote.
pub read_pid-write_pid : (pid : ℕ) → pid < 2 ^ 63 → read_pid (write_pid pid) ≡ some (pos pid)
unfolding read_pid write_pid itoa
read_pid-write_pid pid small =
    atoi-digits (decimal pid pid) pid (digits-decimal pid pid (omega arith))
      (decimal-not_empty pid pid) small
