-- ===== src/Driver/Sftp/Key.antt =====
-- internal/driver/sftp.go: the cache key tells its parts apart.
use sendit.Prelude.{
  ℕ, zero, suc, ◌+◌, ◌-◌, ◌*◌, ◌/◌, ◌%◌, ◌<◌, ◌≤◌, ◌≡◌, refl, sym, ap, ◌∙◌, ◌==◌, false, ◌&&◌, List,
  [], ◌∷◌, ◌++◌, append_assoc, Option, none, some, if◌then◌else◌, ltb, leb, length, take, drop,
  arith, Bool-cases, inl, inr,
}
use sendit.Prelude.Decimal.{decimal, itoa}
use sendit.Prelude.Text.{Text}
use sendit.Config.Schema.{SftpConfig}
use sendit.Config.TargetsFile.{digits}
use sendit.Driver.Sftp.{key_parts, write_cache_part, write_parts, sftp_cache_key}

digits-snoc :
    (m v : ℕ) (s : Text) (c : ℕ)
    → digits m s ≡ some v
    → digits m (s ++ (c ∷ [])) ≡ digits v (c ∷ [])
unfolding digits
digits-snoc m v [] c e = let same : m ≡ v = cc e in ap (λ k. digits k (c ∷ [])) same
digits-snoc m v (d ∷ s) c e = elim (Bool-cases (leb b'0' d && leb d b'9')) [
  | inl digit ↦ rw digit (digits-snoc (10 * m + (d - b'0')) v s c (rw digit at e))
  | inr other ↦ absurd (cc (rw other at e))
]

one_digit : (n : ℕ) → n < 10 → digits 0 ((b'0' + n) ∷ []) ≡ some n
unfolding digits
one_digit n h = ground (arith, h)

last_digit : (n : ℕ) → digits (n / 10) ((b'0' + n % 10) ∷ []) ≡ some n
unfolding digits
last_digit n = ground arith

pub digits-decimal : (fuel n : ℕ) → n ≤ fuel → digits 0 (decimal fuel n) ≡ some n
unfolding decimal
digits-decimal zero n h = let z : n ≡ 0 = omega (arith, h) in rw z (one_digit 0 (omega arith))
digits-decimal (suc fuel) n h = elim (Bool-cases (ltb n 10)) [
  | inl small ↦ rw (small, decimal) (one_digit n (ground (arith, small)))
  | inr large ↦
      rw (large, decimal)
        (digits-snoc 0 (n / 10) (decimal fuel (n / 10)) (b'0' + n % 10)
            (digits-decimal fuel (n / 10) (ground (arith, h, large)))
          ∙ last_digit n)
]

-- A reader of what `writeCachePart` writes: the number up to the colon, and as many bytes.
unfoldable read_length : ℕ → Text → Option (ℕ × Text)
read_length n [] = none
read_length n (c ∷ s) =
    let rest = read_length (10 * n + (c - b'0')) s in if c == b':' then some (n, s) else rest

unfoldable read_parts : ℕ → Text → List Text
unfolding read_length
read_parts zero s = []
read_parts (suc k) s = elim (read_length 0 s) [
  | none ↦ []
  | some (n, rest) ↦ take n rest ∷ read_parts k (drop (suc n) rest)
]

read_length-append :
    (m v : ℕ) (s rest : Text)
    → digits m s ≡ some v
    → read_length m (s ++ (b':' ∷ rest)) ≡ some (v, rest)
unfolding digits read_length
read_length-append m v [] rest e = let same : m ≡ v = cc e in ap (λ k. some (k, rest)) same
read_length-append m v (d ∷ s) rest e = elim (Bool-cases (leb b'0' d && leb d b'9')) [
  | inl digit ↦
      let no_colon : (d == b':') ≡ false = ground (arith, digit) in
      rw no_colon (read_length-append (10 * m + (d - b'0')) v s rest (rw digit at e))
  | inr other ↦ absurd (cc (rw other at e))
]

take-append : (s t : Text) → take (length s) (s ++ t) ≡ s
take-append [] t = refl
take-append (c ∷ s) t = ap (◌∷◌ c) (take-append s t)

drop-append : (s t : Text) (c : ℕ) → drop (suc (length s)) (s ++ (c ∷ t)) ≡ t
drop-append [] t c = refl
drop-append (d ∷ s) t c = drop-append s t c

read_parts-write_parts : (parts : List Text) → read_parts (length parts) (write_parts parts) ≡ parts
unfolding read_parts write_parts write_cache_part itoa
read_parts-write_parts [] = refl
read_parts-write_parts (s ∷ more) =
    let shape : write_parts (s ∷ more)
        ≡ itoa (length s) ++ (b':' ∷ (s ++ (b'|' ∷ write_parts more))) =
      append_assoc (itoa (length s)) (b':' ∷ (s ++ (b'|' ∷ []))) (write_parts more)
      ∙ ap (λ t. itoa (length s) ++ (b':' ∷ t)) (append_assoc s (b'|' ∷ []) (write_parts more)) in
    rw
      (
        shape,
        read_length-append 0 (length s) (itoa (length s)) (s ++ (b'|' ∷ write_parts more))
            (digits-decimal (length s) (length s) (omega arith)),
        read_parts,
      )
      (rw
        (
          take-append s (b'|' ∷ write_parts more),
          drop-append s (write_parts more) b'|',
          read_parts-write_parts more,
        )
        refl)

write_parts-inj :
    (ps qs : List Text) → length ps ≡ length qs → write_parts ps ≡ write_parts qs → ps ≡ qs
write_parts-inj ps qs n e =
    sym (read_parts-write_parts ps)
    ∙ ap (read_parts (length ps)) e
    ∙ ap (λ k. read_parts k (write_parts qs)) n
    ∙ read_parts-write_parts qs

-- Equal cache keys have equal parts: the address, the user, the method of authentication, whether the host key is
-- checked, and the four lists of algorithms, each joined with commas.
pub sftp_cache_key-inj :
    (a b : Text) (c d : SftpConfig)
    → sftp_cache_key a c ≡ sftp_cache_key b d
    → key_parts a c ≡ key_parts b d
unfolding sftp_cache_key key_parts
sftp_cache_key-inj a b c d e = write_parts-inj (key_parts a c) (key_parts b d) refl e
