-- ===== src/Pcap/Writer/RoundTrip.antt =====
-- internal/pcap/writer.go: what a reader of the format finds in the packets written.
use sendit.Prelude.{
  ℕ, zero, suc, ◌/◌, ◌%◌, ◌^◌, ◌≤◌, ◌<◌, ◌≡◌, refl, ap, ◌∙◌, length-append, true, List, [], ◌∷◌,
  ◌++◌, append_assoc, Option, none, some, if◌then◌else◌, leb, length, length-take, take, drop, map,
  min, arith, All,
}
use sendit.Pcap.Writer.{Bytes, Packet, snap_len, put_uint32, incl_len, write_pkt_raw, packets}
use sendit.Pcap.Writer.Read.{Header, uint32, header, read}

-- What is to be read of a packet.
abbrev pub seen : Packet → Header × Bytes
seen p = (
  record {
    seconds = p.unix;
    microseconds = p.nanosecond / 1000;
    included = min snap_len (length p.payload);
    original = length p.payload;
  },
  take snap_len p.payload,
)

-- The time is before 2106, the nanoseconds are those of a second, and the payload is of less than 4 GiB.
abbrev pub IsFit : Packet → Type 0
IsFit p = (p.unix < 2 ^ 32) × (p.nanosecond < 1_000_000_000) × (length p.payload < 2 ^ 32)

uint32-put_uint32 :
    {A : Type 0} (n : ℕ) (rest : Bytes) (k : ℕ → Bytes → Option A)
    → n < 2 ^ 32
    → uint32 (put_uint32 n ++ rest) k ≡ k n rest
unfolding uint32 put_uint32
uint32-put_uint32 n rest k h = ap (λ m. k m rest) (omega arith)

n_zero : (n : ℕ) → n ≡ 0 → n ≡ zero
n_zero n e = e

take-length :
    {A : Type 0} (n : ℕ) (xs ys : List A)
    → n ≡ length xs
    → (take n (xs ++ ys) ≡ xs) × (drop n (xs ++ ys) ≡ ys)
take-length n [] ys e = rw (n_zero n e) (refl, refl)
take-length zero (x ∷ xs) ys e = absurd (omega arith)
take-length (suc n) (x ∷ xs) ys e =
    let (front, back) = take-length n xs ys (omega (arith, e)) in (ap (◌∷◌ x) front, back)

incl_len-min :
    (payload : Bytes) → length payload < 2 ^ 32 → incl_len payload ≡ min snap_len (length payload)
unfolding incl_len
incl_len-min payload h = ground arith

-- What the reader makes of a header and the bytes behind it.
abbrev packet_at : ℕ → Header → Bytes → Option (List (Header × Bytes))
unfolding read
packet_at fuel h rest =
    let others = read fuel (drop h.included rest) in
    if leb h.included (length rest)
    then elim others [ none ↦ none | some ps ↦ some ((h, take h.included rest) ∷ ps) ]
    else none

read-put_uint32 :
    (fuel n : ℕ) (rest : Bytes)
    → read (suc fuel) (put_uint32 n ++ rest) ≡ header (put_uint32 n ++ rest) (packet_at fuel)
unfolding read put_uint32 packet_at
read-put_uint32 fuel n rest = refl

header-put_uint32 :
    {A : Type 0} (h : Header) (rest : Bytes) (k : Header → Bytes → Option A)
    → h.seconds < 2 ^ 32
    → h.microseconds < 2 ^ 32
    → h.included < 2 ^ 32
    → h.original < 2 ^ 32
    → header
        (put_uint32 h.seconds
          ++ (put_uint32 h.microseconds
              ++ (put_uint32 h.included ++ (put_uint32 h.original ++ rest))))
        k
      ≡ k h rest
unfolding header
header-put_uint32 h rest k s us incl orig =
    uint32-put_uint32 h.seconds _ _ s
    ∙ uint32-put_uint32 h.microseconds _ _ us
    ∙ uint32-put_uint32 h.included _ _ incl
    ∙ uint32-put_uint32 h.original _ _ orig

packet_at-append :
    (fuel : ℕ) (h : Header) (body rest : Bytes) (ps : List (Header × Bytes))
    → h.included ≡ length body
    → read fuel rest ≡ some ps
    → packet_at fuel h (body ++ rest) ≡ some ((h, body) ∷ ps)
unfolding packet_at
packet_at-append fuel h body rest ps e r =
    let (front, back) = take-length h.included body rest e in
    let fits : leb h.included (length (body ++ rest)) ≡ true =
      ground (arith, length-append body rest, e) in
    rw (fits, back, r, front) refl

assoc₄ : (a b c d e f : Bytes) → (a ++ b ++ c ++ d ++ e) ++ f ≡ a ++ (b ++ (c ++ (d ++ (e ++ f))))
assoc₄ a b c d e f =
    append_assoc (a ++ b ++ c ++ d) e f
    ∙ append_assoc (a ++ b ++ c) d (e ++ f)
    ∙ append_assoc (a ++ b) c (d ++ (e ++ f))
    ∙ append_assoc a b (c ++ (d ++ (e ++ f)))

take-min : (n : ℕ) (xs : Bytes) → take (min n (length xs)) xs ≡ take n xs
take-min zero xs = let e : min 0 (length xs) ≡ 0 = omega arith in rw e refl
take-min (suc n) [] = let e : min (suc n) 0 ≡ 0 = omega arith in rw e refl
take-min (suc n) (x ∷ xs) =
    let e : min (suc n) (suc (length xs)) ≡ suc (min n (length xs)) = omega arith in
    rw e (ap (◌∷◌ x) (take-min n xs))

written :
    (p : Packet) (tail : Bytes)
    → IsFit p
    → write_pkt_raw p ++ tail
      ≡ put_uint32 p.unix
        ++ (put_uint32 (p.nanosecond / 1000)
            ++ (put_uint32 (min snap_len (length p.payload))
                ++ (put_uint32 (length p.payload) ++ (take snap_len p.payload ++ tail))))
unfolding write_pkt_raw
written p tail h =
    let small : p.unix % 2 ^ 32 ≡ p.unix = omega (arith, h) in
    let micro : p.nanosecond / 1000 % 2 ^ 32 ≡ p.nanosecond / 1000 = omega (arith, h) in
    let whole_length : length p.payload % 2 ^ 32 ≡ length p.payload = omega (arith, h) in
    rw (incl_len-min p.payload h.2, take-min snap_len p.payload, small, micro, whole_length)
      (assoc₄ (put_uint32 p.unix) (put_uint32 (p.nanosecond / 1000))
        (put_uint32 (min snap_len (length p.payload))) (put_uint32 (length p.payload))
        (take snap_len p.payload) tail)

-- A reader of the format, with fuel for as many packets as there are, finds in the packets written
-- the time of each, the length of its payload, and the payload up to 65535 bytes, if the times
-- fit 32 bits, the nanoseconds are below a second and the payloads are shorter than 4 GiB.
pub read-packets :
    (ps : List Packet) (fuel : ℕ)
    → All IsFit ps
    → length ps ≤ fuel
    → read fuel (packets ps) ≡ some (map seen ps)
unfolding read packets
read-packets [] fuel h enough = refl
read-packets (p ∷ ps) zero h enough = absurd (omega arith)
read-packets (p ∷ ps) (suc fuel) h enough =
    let tail = packets ps in
    let h' = (seen p).0 in
    let body = take snap_len p.payload in
    let same : write_pkt_raw p ++ tail
        ≡ put_uint32 h'.seconds
          ++ (put_uint32 h'.microseconds
              ++ (put_uint32 h'.included ++ (put_uint32 h'.original ++ (body ++ tail)))) =
      written p tail h.0 in
    ap (read (suc fuel)) same
    ∙ read-put_uint32 fuel h'.seconds (
        put_uint32 h'.microseconds
        ++ (put_uint32 h'.included ++ (put_uint32 h'.original ++ (body ++ tail))))
    ∙ header-put_uint32 h' (body ++ tail) (packet_at fuel) (omega (arith, h.0)) (omega (arith, h.0))
        (omega arith) (omega (arith, h.0))
    ∙ packet_at-append fuel h' body tail (map seen ps)
        (omega (arith, length-take snap_len p.payload))
        (read-packets ps fuel h.1 (omega (arith, enough)))
