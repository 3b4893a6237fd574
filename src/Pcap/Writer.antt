-- ===== src/Pcap/Writer.antt =====
-- internal/pcap/writer.go: the bytes of the global header and of a packet, in little-endian order.
-- A file is the list of its bytes. The text of a payload, which fmt and time make, is an argument.
pub mod Read
pub mod RoundTrip
mod Tests
use sendit.Prelude.{
  ℕ, zero, suc, ◌+◌, ◌*◌, ◌/◌, ◌%◌, ◌^◌, Bool, true, false, List, [], ◌∷◌, ◌++◌, if◌then◌else◌, ltb,
  length, take,
}
use sendit.Prelude.Int.{ℤ}

abbrev pub Bytes : Type 0
Bytes = List ℕ

abbrev pub magic_le : ℕ
magic_le = 2712847316

abbrev pub snap_len : ℕ
snap_len = 65535

abbrev pub link_type : ℕ
link_type = 147

-- `PutUint16` and `PutUint32`, after the conversion of the argument to that width.
unfoldable pub put_uint16 : ℕ → Bytes
put_uint16 n = n % 256 ∷ n / 256 % 256 ∷ []

unfoldable pub put_uint32 : ℕ → Bytes
put_uint32 n = n % 256 ∷ n / 256 % 256 ∷ n / 65536 % 256 ∷ n / 16777216 % 256 ∷ []

unfoldable pub global_header : Bytes
unfolding put_uint16 put_uint32
global_header =
    put_uint32 magic_le
    ++ put_uint16 2
    ++ put_uint16 4
    ++ put_uint32 0
    ++ put_uint32 0
    ++ put_uint32 snap_len
    ++ put_uint32 link_type

-- A packet: its time in seconds and nanoseconds, and its payload.
pub record Packet : Type 0 where
  pub unix : ℕ
  pub nanosecond : ℕ
  pub payload : Bytes

-- `inclLen` of `writePktRaw`.
unfoldable pub incl_len : Bytes → ℕ
incl_len payload = let n = length payload % 2 ^ 32 in if ltb snap_len n then snap_len else n

-- `writePktRaw`.
unfoldable pub write_pkt_raw : Packet → Bytes
unfolding put_uint32 incl_len
write_pkt_raw p =
    put_uint32 (p.unix % 2 ^ 32)
    ++ put_uint32 (p.nanosecond / 1000 % 2 ^ 32)
    ++ put_uint32 (incl_len p.payload)
    ++ put_uint32 (length p.payload % 2 ^ 32)
    ++ take (incl_len p.payload) p.payload

unfoldable pub packets : List Packet → Bytes
unfolding write_pkt_raw
packets [] = []
packets (p ∷ ps) = write_pkt_raw p ++ packets ps

-- What `run` writes for the results that it takes from the channel until that is closed.
unfoldable pub run : List Packet → Bytes
unfolding global_header packets
run ps = global_header ++ packets ps
