-- ===== src/Driver/Auth/Tests.antt =====
-- internal/driver/auth.go: runs with an environment that is given.
use sendit.Prelude.{if◌then◌else◌, ◌≡◌, refl, [], ◌++◌, none, some, ok, err}
use sendit.Prelude.Text.{Text, codes, text_eq}
use sendit.Config.Schema.{AuthConfig}
use sendit.Config.Samples.{no_auth}
use sendit.Config.Validate.{is_empty, validate_auth}
use sendit.Driver.Auth.{Request, Web, env_not_set, apply_auth, auth_headers}
use sendit.Driver.Auth.Laws.{apply_auth-validate_auth}

-- Only the variable T is set.
unfoldable only_t : Text → Text
unfolding text_eq
only_t name = if text_eq name (codes "T") then codes "secret" else []

abbrev small_web : Web
small_web = record {
  getenv = only_t;
  canonical = λ name. name;
  basic = λ user password. codes "Basic " ++ user;
  with_parameter = λ url name value. some (url ++ name);
}

abbrev by_token : AuthConfig
by_token = record no_auth { kind = codes "bearer"; token_env = codes "T" }

abbrev plain_request : Request
plain_request = record { headers = []; url = codes "http://a" }

apply_auth-validate_auth_example :
    (done : Request) × (apply_auth small_web plain_request by_token ≡ ok done)
unfolding validate_auth only_t is_empty
apply_auth-validate_auth_example =
    apply_auth-validate_auth small_web plain_request by_token refl (λ h. refl) (λ h. absurd (cc h))
      (λ name value e. cc e)

unset :
    apply_auth (record small_web { getenv = λ name. [] }) plain_request by_token
    ≡ err (env_not_set (codes "T"))
unfolding apply_auth
unset = refl

-- A parameter of the query is not a header.
no_headers :
    auth_headers small_web
      (record no_auth { kind = codes "query"; token = codes "t"; param_name = codes "k" })
    ≡ ok none
unfolding auth_headers
no_headers = refl
