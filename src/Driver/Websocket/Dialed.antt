-- ===== src/Driver/Websocket/Dialed.antt =====
-- internal/driver/websocket.go: what is dialed for a target whose credentials are in the query.
use sendit.Prelude.{◌≡◌, refl, sym, ◌∙◌, true, ◌||◌, none, ok, arith}
use sendit.Prelude.Text.{Text, codes, text_eq}
use sendit.Config.Schema.{AuthConfig}
use sendit.Config.Validate.{is_empty}
use sendit.Driver.Auth.{Web, auth_headers}
use sendit.Driver.Websocket.{dialed}

bare :
    (web : Web) (url : Text) (auth : AuthConfig)
    → (is_empty auth.kind || text_eq auth.kind (codes "query")) ≡ true
    → dialed web url auth ≡ ok (url, none)
unfolding dialed auth_headers
bare web url auth h = rw (h, dialed, auth_headers) refl

-- A target whose credentials belong into the query is dialed as one that has none: neither the address nor the
-- headers have them.
pub dialed-query :
    (web : Web) (url : Text) (auth none_given : AuthConfig)
    → text_eq auth.kind (codes "query") ≡ true
    → is_empty none_given.kind ≡ true
    → dialed web url auth ≡ dialed web url none_given
dialed-query web url auth none_given query empty =
    bare web url auth (ground (arith, query))
    ∙ sym (bare web url none_given (ground (arith, empty)))
