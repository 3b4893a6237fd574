-- ===== src/Driver/Sftp/Payload.antt =====
-- internal/driver/sftp.go: the sizes of uploads.
use sendit.Prelude.{
  ℕ, zero, suc, ◌+◌, ◌-◌, ◌≤◌, ◌<◌, ◌≡◌, refl, ap, false, Option, none, some, length, All, arith,
}
use sendit.Prelude.Int.{pos_part}
use sendit.Config.Schema.{SftpConfig}
use sendit.Driver.Sftp.{secure_int64_n, payload_size, letters, sftp_payload}

length-letters : (i n : ℕ) → length (letters i n) ≡ n
unfolding letters
length-letters i zero = refl
length-letters i (suc n) = ap suc (length-letters (i + 1) n)

letters-All : (i n : ℕ) → All (λ c. (b'a' ≤ c) × (c ≤ b'z')) (letters i n)
unfolding letters
letters-All i zero = tt
letters-All i (suc n) = ((omega arith, omega arith), letters-All (i + 1) n)

secure_int64_n_bound :
    (draw : Option ℕ) (n : ℕ)
    → ((r : ℕ) → draw ≡ some r → r < n)
    → 0 < n
    → secure_int64_n draw n < n
unfolding secure_int64_n
secure_int64_n_bound draw zero h p = absurd (omega (arith, p))
secure_int64_n_bound none (suc n) h p = omega arith
secure_int64_n_bound (some r) (suc n) h p = h r refl

-- A payload that is not the test file is made of lower-case letters, and where no single size is set and both
-- bounds are positive and in order, its size is between them, whatever `cryptorand.Int` draws below its bound.
pub sftp_payload_bounds :
    (cfg : SftpConfig) (draw : Option ℕ)
    → cfg.eicar ≡ false
    → pos_part cfg.file_size_bytes ≡ 0
    → 0 < pos_part cfg.file_size_min_bytes
    → pos_part cfg.file_size_min_bytes ≤ pos_part cfg.file_size_max_bytes
    → ((r : ℕ)
        → draw ≡ some r
        → r < pos_part cfg.file_size_max_bytes - pos_part cfg.file_size_min_bytes + 1)
    → (pos_part cfg.file_size_min_bytes ≤ length (sftp_payload cfg draw))
      × (length (sftp_payload cfg draw) ≤ pos_part cfg.file_size_max_bytes)
      × All (λ c. (b'a' ≤ c) × (c ≤ b'z')) (sftp_payload cfg draw)
unfolding sftp_payload payload_size
sftp_payload_bounds cfg draw plain no_size low order below =
    let lo = pos_part cfg.file_size_min_bytes in
    let hi = pos_part cfg.file_size_max_bytes in
    let drawn = secure_int64_n_bound draw (hi - lo + 1) below (omega arith) in
    let size : ℕ = payload_size cfg draw in
    let long : length (letters 0 size) ≡ size = length-letters 0 size in
    rw (plain, sftp_payload)
      (
        ground (arith, long, no_size, low, order, drawn),
        ground (arith, long, no_size, low, order, drawn),
        letters-All 0 size,
      )
