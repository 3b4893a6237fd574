-- ===== src/Cli/Probe.antt =====
-- cmd/sendit/main.go: the types of targets, the labels of `probe` and `pinch`, and the PID file.
pub mod Pid
mod Tests
use sendit.Prelude.{
  ℕ, ◌==◌, Bool, true, false, ◌||◌, List, [], ◌∷◌, ◌++◌, Option, none, some, if◌then◌else◌, Result,
  ok, err,
}
use sendit.Prelude.Int.{ℤ, pos}
use sendit.Prelude.Decimal.{itoa}
use sendit.Prelude.Text.{Text, codes, has_prefix, contains, one_of}
use sendit.Config.Validate.{is_empty}
use sendit.Config.TargetsFile.{atoi}

unfoldable pub detect_probe_type : Text → Text
unfolding has_prefix
detect_probe_type target =
    if has_prefix target (codes "http://") || has_prefix target (codes "https://")
    then codes "http"
    else if has_prefix target (codes "ws://") || has_prefix target (codes "wss://")
    then codes "websocket"
    else codes "dns"

-- The type that `probe` uses, if it supports it.
unfoldable pub probe_type : Text → Text → Option Text
unfolding detect_probe_type is_empty one_of
probe_type driver_type target =
    let kind = if is_empty driver_type then detect_probe_type target else driver_type in
    if one_of kind (codes "http" ∷ codes "dns" ∷ codes "websocket" ∷ []) then some kind else none

unfoldable pub probe_rcode_label : ℕ → Text
unfolding itoa
probe_rcode_label status =
    if status == 200
    then codes "NOERROR"
    else if status == 404
    then codes "NXDOMAIN"
    else if status == 403
    then codes "REFUSED"
    else if status == 503
    then codes "SERVFAIL"
    else codes "RCODE_" ++ itoa status

-- `probeWS`: the errors of the dialing, of the message and of the reply, if there are any.
unfoldable pub probe_ws : {E : Type 0} → Text → Option E → Option E → Option E → Result E ℕ
unfolding is_empty
probe_ws send_msg dialing sending receiving = elim dialing [
  | some e ↦ err e
  | none ↦ if is_empty send_msg then ok 101 else elim sending [
    | some e ↦ err e
    | none ↦ elim receiving [ some e ↦ err e | none ↦ ok 101 ]
  ]
]

unfoldable pub is_conn_refused : Text → Bool
unfolding contains
is_conn_refused message = contains message (codes "connection refused")

-- `pinchTCP` and `pinchUDP`, on the texts of the errors: of the dialing, and of the reading.
unfoldable pub pinch_tcp : Option Text → Text
unfolding is_conn_refused
pinch_tcp none = codes "open"
pinch_tcp (some e) = if is_conn_refused e then codes "closed" else codes "filtered"

unfoldable pub pinch_udp : Option Text → Option Text → Text
unfolding is_conn_refused
pinch_udp (some e) reading = codes "error"
pinch_udp none none = codes "open"
pinch_udp none (some e) = if is_conn_refused e then codes "closed" else codes "open|filtered"

-- What `writePID` writes, and what `readPID` makes of a file that is read.
unfoldable pub write_pid : ℕ → Text
unfolding itoa
write_pid pid = itoa pid

unfoldable pub read_pid : Text → Option ℤ
unfolding atoi
read_pid content = atoi content
