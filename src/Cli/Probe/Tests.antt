-- ===== src/Cli/Probe/Tests.antt =====
-- cmd/sendit/main.go: runs of the labels and of the PID file.
use sendit.Prelude.{◌≡◌, refl, none, some}
use sendit.Prelude.Text.{codes, text_eq}
use sendit.Driver.Dns.{rcode_to_http}
use sendit.Cli.Probe.{detect_probe_type, probe_type, probe_rcode_label, pinch_udp}

secure : detect_probe_type (codes "wss://a") ≡ codes "websocket"
unfolding detect_probe_type
secure = refl

no_sftp : probe_type (codes "sftp") (codes "a") ≡ none
unfolding probe_type text_eq
no_sftp = refl

-- The label of the answer FORMERR, 1, has the status that stands for it.
formerr : probe_rcode_label (rcode_to_http 1) ≡ codes "RCODE_502"
unfolding probe_rcode_label rcode_to_http
formerr = refl

silent : pinch_udp none (some (codes "i/o timeout")) ≡ codes "open|filtered"
unfolding pinch_udp
silent = refl
