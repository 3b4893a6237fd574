-- ===== src/Pcap/Writer/Tests.antt =====
-- A capture of two packets, and the round trip at it.
use sendit.Prelude.{◌≡◌, refl, List, [], ◌∷◌, length}
use sendit.Prelude.Text.{codes}
use sendit.Pcap.Writer.{Packet, global_header}

abbrev two_packets : List Packet
two_packets =
    record { unix = 1_700_000_000; nanosecond = 5_000; payload = codes "ts=1" }
    ∷ record { unix = 1_700_000_001; nanosecond = 0; payload = [] }
    ∷ []

header_length : length global_header ≡ 24
unfolding global_header
header_length = refl
