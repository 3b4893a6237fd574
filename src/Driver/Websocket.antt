-- ===== src/Driver/Websocket.antt =====
-- internal/driver/websocket.go. The websocket library is a parameter.
pub mod Dialed
mod Tests
use sendit.Prelude.{
  ℕ, zero, suc, ◌+◌, ◌≤◌, ◌≡◌, refl, Bool, true, false, ltb, List, [], ◌∷◌, Option, none, some,
  if◌then◌else◌, Result, ok, err, length, arith,
}
use sendit.Prelude.Int.{ℤ, pos, pos_part, leb_ℤ}
use sendit.Prelude.Text.{Text, codes, text_eq}
use sendit.Config.Schema.{AuthConfig, WebSocketConfig}
use sendit.Config.Validate.{is_empty}
use sendit.Driver.Auth.{Web, AuthError, auth_headers}

-- `Dial`, if it fails; the errors of the writes, one for each; and whether each read succeeds.
pub record Peer (E : Type 0) : Type 0 where
  pub dial : Text → Option (List (Text × Text)) → Option E
  pub write : Text → Option E
  pub reads : List Bool

pub data WebsocketError (E : Type 0) : Type 0 where
  unauthorized : AuthError → WebsocketError E
  dialing : E → WebsocketError E
  sending_message : E → WebsocketError E

pub record WebsocketResult (E : Type 0) : Type 0 where
  pub status_code : ℕ
  pub received : ℕ
  pub error : Option (WebsocketError E)

abbrev pub websocket_failed : {E : Type 0} → WebsocketError E → WebsocketResult E
websocket_failed e = record { status_code = 0; received = 0; error = some e }

-- How long the connection is held, in seconds.
unfoldable pub hold_s : WebSocketConfig → ℤ
hold_s cfg = if leb_ℤ cfg.duration_s (pos 0) then pos 10 else cfg.duration_s

unfoldable pub send_all : {E : Type 0} → (Text → Option E) → List Text → Option E
send_all write [] = none
send_all write (m ∷ ms) = elim (write m) [ some e ↦ some e | none ↦ send_all write ms ]

-- The reading loop: up to the first failure, which also the end of its time is.
unfoldable pub read_expected : ℕ → List Bool → ℕ
read_expected zero reads = 0
read_expected (suc n) [] = 0
read_expected (suc n) (r ∷ rs) = let rest = read_expected n rs in if r then suc rest else 0

-- The address and the headers that are dialed.
unfoldable pub dialed :
    Web → Text → AuthConfig → Result AuthError (Text × Option (List (Text × Text)))
unfolding auth_headers
dialed web url auth = elim (auth_headers web auth) [
  | err e ↦ err e
  | ok headers ↦ ok (url, headers)
]

-- `Execute`, with the number of messages received.
unfoldable pub websocket_execute :
    {E : Type 0} → Web → Peer E → Text → WebSocketConfig → AuthConfig → WebsocketResult E
unfolding dialed send_all read_expected
websocket_execute web peer url cfg auth = elim (dialed web url auth) [
  | err e ↦ websocket_failed (unauthorized e)
  | ok (addr, headers) ↦ elim (peer.dial addr headers) [
    | some e ↦ websocket_failed (dialing e)
    | none ↦ elim (send_all peer.write cfg.send_messages) [
      | some e ↦ websocket_failed (sending_message e)
      | none ↦ record {
        status_code = 101;
        received = read_expected (pos_part cfg.expect_messages) peer.reads;
        error = none;
      }
    ]
  ]
]
