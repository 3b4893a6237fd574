-- ===== src/Pcap.antt =====
-- internal/pcap: the capture file of the results.
pub mod Writer
pub mod Capture
pub mod Export
