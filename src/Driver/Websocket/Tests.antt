-- ===== src/Driver/Websocket/Tests.antt =====
-- internal/driver/websocket.go: runs against a peer that is given.
use sendit.Prelude.{◌≡◌, refl, true, false, [], ◌∷◌, none}
use sendit.Prelude.Int.{pos}
use sendit.Prelude.Text.{Text, codes}
use sendit.Config.Schema.{AuthConfig}
use sendit.Config.Samples.{no_auth, plain_websocket}
use sendit.Config.Validate.{validate_auth}
use sendit.Driver.Auth.{Web}
use sendit.Driver.Websocket.{Peer, websocket_execute}

abbrev small_web : Web
small_web = record {
  getenv = λ name. name;
  canonical = λ name. name;
  basic = λ user password. user;
  with_parameter = λ url name value. none;
}

abbrev by_query : AuthConfig
by_query = record no_auth { kind = codes "query"; token = codes "t"; param_name = codes "k" }

accepted : validate_auth by_query ≡ []
unfolding validate_auth
accepted = refl

abbrev small_peer : Peer Text
small_peer = record {
  dial = λ addr headers. none;
  write = λ m. none;
  reads = true ∷ true ∷ false ∷ true ∷ [];
}

received_two :
    (websocket_execute small_web small_peer
      (codes "ws://a")
      (record plain_websocket { expect_messages = pos 4 })
      no_auth).received
    ≡ 2
unfolding websocket_execute
received_two = refl
