-- ===== src/Driver/Http.antt =====
-- internal/driver/http.go. Package net/http's client is a parameter. Texts are ASCII, where `EqualFold` is plain.
pub mod Redirects
mod Tests
use sendit.Prelude.{
  ℕ, Bool, true, false, not, List, [], ◌∷◌, Option, none, some, if◌then◌else◌, Result, ok, err,
}
use sendit.Prelude.Int.{ℤ, pos, leb_ℤ}
use sendit.Prelude.Text.{Text, codes, text_eq, to_lower}
use sendit.Prelude.Assoc.{insert}
use sendit.Config.Schema.{AuthConfig, HttpConfig}
use sendit.Config.Validate.{is_empty}
use sendit.Driver.Auth.{Request, Web, AuthError, apply_auth}

-- A request of a chain of redirects: the host of its URL, and the host name.
pub record Hop : Type 0 where
  pub host : Text
  pub hostname : Text

-- `return nil`, `return http.ErrUseLastResponse`, and the error of the limiter.
pub data Policy (E : Type 0) : Type 0 where
  follow : Policy E
  use_last : Policy E
  refuse : E → Policy E

-- `redirectPolicy`, on the requests made so far, the latest first.
unfoldable pub redirect_policy :
    {E : Type 0} → Option (Text → Option E) → Bool → Hop → List Hop → Policy E
unfolding text_eq to_lower is_empty
redirect_policy limiter allow_cross_host req [] = follow
redirect_policy limiter allow_cross_host req (last ∷ via) =
    if text_eq (to_lower req.host) (to_lower last.host)
    then follow
    else if not allow_cross_host
    then use_last
    else elim limiter [
      | none ↦ follow
      | some limit ↦
          if is_empty req.hostname
          then follow
          else elim (limit req.hostname) [ none ↦ follow | some e ↦ refuse e ]
    ]

-- What the client is asked to send.
pub record Call : Type 0 where
  pub method : Text
  pub request : Request
  pub body : Text
  pub timeout_s : ℤ
  pub allow_cross_host : Bool

pub data HttpError (E : Type 0) : Type 0 where
  creating_request : E → HttpError E
  unauthorized : AuthError → HttpError E
  sending : E → HttpError E

-- `http.NewRequestWithContext`, if it fails, and `client.Do` with the reading of the body: the status and
-- the number of bytes.
pub record Client (E : Type 0) : Type 0 where
  pub new_request : Text → Text → Option E
  pub send : Call → Result E (ℕ × ℕ)

-- `task.Result` without the task and the duration.
pub record HttpResult (E : Type 0) : Type 0 where
  pub status_code : ℕ
  pub bytes_read : ℕ
  pub error : Option (HttpError E)

unfoldable pub set_headers : Web → List (Text × Text) → List (Text × Text) → List (Text × Text)
unfolding insert
set_headers web [] headers = headers
set_headers web ((k, v) ∷ more) headers = set_headers web more (insert (web.canonical k) v headers)

abbrev pub http_failed : {E : Type 0} → HttpError E → HttpResult E
http_failed e = record { status_code = 0; bytes_read = 0; error = some e }

unfoldable pub call_of : Text → HttpConfig → Request → Call
unfolding is_empty
call_of url cfg req = record {
  method = if is_empty cfg.method then codes "GET" else cfg.method;
  request = req;
  body = cfg.body;
  timeout_s = if leb_ℤ cfg.timeout_s (pos 0) then pos 15 else cfg.timeout_s;
  allow_cross_host = cfg.allow_cross_host_redirects;
}

-- `Execute`.
unfoldable pub http_execute :
    {E : Type 0} → Web → Client E → Text → HttpConfig → AuthConfig → HttpResult E
unfolding set_headers apply_auth call_of is_empty
http_execute web client url cfg auth =
    elim (client.new_request (if is_empty cfg.method then codes "GET" else cfg.method) url) [
      | some e ↦ http_failed (creating_request e)
      | none ↦
          elim (apply_auth web (record { headers = set_headers web cfg.headers []; url = url })
            auth) [
              | err e ↦ http_failed (unauthorized e)
              | ok req ↦ elim (client.send (call_of url cfg req)) [
                | err e ↦ http_failed (sending e)
                | ok (status, bytes) ↦ record {
                  status_code = status;
                  bytes_read = bytes;
                  error = none;
                }
              ]
            ]
    ]
