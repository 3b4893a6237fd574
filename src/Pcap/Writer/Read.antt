-- ===== src/Pcap/Writer/Read.antt =====
-- A reader of capture files, by the format's own description and not by the writer: it takes numbers
-- of 4 bytes from the front, and as many bytes of a packet as its header says.
use sendit.Prelude.{
  ℕ, zero, suc, ◌+◌, ◌*◌, List, [], ◌∷◌, Option, none, some, if◌then◌else◌, leb, length, take, drop,
}
use sendit.Pcap.Writer.{Bytes}

pub record Header : Type 0 where
  pub seconds : ℕ
  pub microseconds : ℕ
  pub included : ℕ
  pub original : ℕ

-- A number of four bytes from the front, and what is made of it and of the bytes that follow.
unfoldable pub uint32 : {A : Type 0} → Bytes → (ℕ → Bytes → Option A) → Option A
uint32 (a ∷ b ∷ c ∷ d ∷ rest) k = k (a + 256 * b + 65536 * c + 16777216 * d) rest
uint32 _ k = none

unfoldable pub header : {A : Type 0} → Bytes → (Header → Bytes → Option A) → Option A
unfolding uint32
header bytes k = uint32 bytes (λ s rest₁. uint32 rest₁ (λ us rest₂. uint32 rest₂ (λ incl rest₃.
    uint32 rest₃ (λ orig rest.
      k (record { seconds = s; microseconds = us; included = incl; original = orig }) rest))))

-- The packets of a capture of at most `fuel` packets, up to its end; `none` if it ends inside one.
unfoldable pub read : ℕ → Bytes → Option (List (Header × Bytes))
unfolding header
read fuel [] = some []
read zero (b ∷ bytes) = none
read (suc fuel) (b ∷ bytes) = header (b ∷ bytes) (λ h rest.
    let others = read fuel (drop h.included rest) in
    if leb h.included (length rest)
    then elim others [ none ↦ none | some ps ↦ some ((h, take h.included rest) ∷ ps) ]
    else none)
