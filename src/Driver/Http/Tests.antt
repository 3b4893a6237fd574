-- ===== src/Driver/Http/Tests.antt =====
-- internal/driver/http.go: runs of the policy, and of a request without a token.
use sendit.Prelude.{◌≡◌, refl, true, false, [], ◌∷◌, Option, none, some, ok}
use sendit.Prelude.Text.{Text, codes}
use sendit.Config.Samples.{no_auth, plain_http}
use sendit.Driver.Auth.{Web, not_configured}
use sendit.Driver.Http.{
  Hop, use_last, refuse, redirect_policy, Client, unauthorized, http_failed, http_execute,
}
use sendit.Driver.Http.Redirects.{start, hop, OneHost, chain-OneHost}

abbrev here : Hop
here = record { host = codes "a:1"; hostname = codes "a" }

abbrev upper : Hop
upper = record { host = codes "A:1"; hostname = codes "A" }

abbrev there : Hop
there = record { host = codes "b"; hostname = codes "b" }

abbrev no_limiter : Option (Text → Option Text)
no_limiter = none

chain-OneHost_example : OneHost (upper ∷ here ∷ [])
unfolding redirect_policy
chain-OneHost_example =
    chain-OneHost no_limiter (upper ∷ here ∷ []) (hop upper (here ∷ []) (start here) refl)

stays : redirect_policy no_limiter false there (here ∷ []) ≡ use_last
unfolding redirect_policy
stays = refl

limited : redirect_policy (some (λ name. some name)) true there (here ∷ []) ≡ refuse (codes "b")
unfolding redirect_policy
limited = refl

abbrev small_web : Web
small_web = record {
  getenv = λ name. [];
  canonical = λ name. name;
  basic = λ user password. user;
  with_parameter = λ url name value. some url;
}

abbrev small_client : Client Text
small_client = record { new_request = λ method url. none; send = λ call. ok (200, 3) }

answered :
    (http_execute small_web small_client (codes "http://a") plain_http no_auth).status_code ≡ 200
unfolding http_execute
answered = refl

no_token :
    http_execute small_web small_client
      (codes "http://a")
      plain_http
      (record no_auth { kind = codes "bearer" })
    ≡ http_failed (unauthorized not_configured)
unfolding http_execute
no_token = refl
