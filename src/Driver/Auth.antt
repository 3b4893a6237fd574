-- ===== src/Driver/Auth.antt =====
-- internal/driver/auth.go. The environment, package net/http's names of headers and its basic authentication,
-- and net/url are parameters.
pub mod Laws
mod Tests
use sendit.Prelude.{
  Bool, true, false, not, ◌||◌, List, [], ◌∷◌, ◌++◌, Option, none, some, if◌then◌else◌, Result, ok,
  err,
}
use sendit.Prelude.Text.{Text, codes, text_eq}
use sendit.Prelude.Assoc.{insert}
use sendit.Config.Schema.{AuthConfig}
use sendit.Config.Validate.{is_empty}

-- The headers of a request by their canonical names, and its URL.
pub record Request : Type 0 where
  pub headers : List (Text × Text)
  pub url : Text

-- `os.Getenv`, `CanonicalHeaderKey`, the value that `SetBasicAuth` sets, and a URL with a parameter of
-- its query set; `with_parameter` is none on a URL that is not parsed.
pub record Web : Type 0 where
  pub getenv : Text → Text
  pub canonical : Text → Text
  pub basic : Text → Text → Text
  pub with_parameter : Text → Text → Text → Option Text

pub data AuthError : Type 0 where
  env_not_set : (name : Text) → AuthError
  not_configured : AuthError
  bad_url : AuthError

unfoldable pub resolve_value : (Text → Text) → Text → Text → Result AuthError Text
unfolding is_empty
resolve_value getenv literal env_var =
    if not (is_empty literal)
    then ok literal
    else if is_empty env_var
    then err not_configured
    else if is_empty (getenv env_var)
    then err (env_not_set env_var)
    else ok (getenv env_var)

abbrev pub set_header : Web → Text → Text → Request → Request
set_header web name value req = record req {
  headers = insert (web.canonical name) value req.headers;
}

-- A missing password is the empty one.
unfoldable pub password_or_empty : Result AuthError Text → Text
password_or_empty (ok p) = p
password_or_empty (err e) = []

unfoldable pub apply_auth : Web → Request → AuthConfig → Result AuthError Request
unfolding text_eq is_empty resolve_value password_or_empty
apply_auth web req cfg =
    if is_empty cfg.kind
    then ok req
    else if text_eq cfg.kind (codes "bearer")
    then (elim (resolve_value web.getenv cfg.token cfg.token_env) [
      | err e ↦ err e
      | ok token ↦ ok (set_header web (codes "Authorization") (codes "Bearer " ++ token) req)
    ])
    else if text_eq cfg.kind (codes "basic")
    then (elim (resolve_value web.getenv cfg.username cfg.username_env) [
      | err e ↦ err e
      | ok user ↦ ok (
          set_header web (codes "Authorization")
            (web.basic user
              (password_or_empty (resolve_value web.getenv cfg.password cfg.password_env)))
            req)
    ])
    else if text_eq cfg.kind (codes "header")
    then (elim (resolve_value web.getenv cfg.token cfg.token_env) [
      | err e ↦ err e
      | ok token ↦ ok (set_header web cfg.header_name token req)
    ])
    else if text_eq cfg.kind (codes "query")
    then (elim (resolve_value web.getenv cfg.token cfg.token_env) [
      | err e ↦ err e
      | ok token ↦ elim (web.with_parameter req.url cfg.param_name token) [
        | none ↦ err bad_url
        | some url ↦ ok (record req { url = url })
      ]
    ])
    else ok req

-- The headers, or none for the nil of Go.
unfoldable pub auth_headers : Web → AuthConfig → Result AuthError (Option (List (Text × Text)))
unfolding text_eq is_empty apply_auth
auth_headers web cfg =
    if is_empty cfg.kind || text_eq cfg.kind (codes "query")
    then ok none
    else elim (apply_auth web (record { headers = []; url = codes "http://placeholder" }) cfg) [
      | err e ↦ err e
      | ok req ↦ ok (some req.headers)
    ]

unfoldable pub auth_query_url : Web → Text → AuthConfig → Result AuthError Text
unfolding text_eq resolve_value
auth_query_url web url cfg =
    if not (text_eq cfg.kind (codes "query"))
    then ok url
    else elim (resolve_value web.getenv cfg.token cfg.token_env) [
      | err e ↦ err e
      | ok token ↦ elim (web.with_parameter url cfg.param_name token) [
        | none ↦ err bad_url
        | some u ↦ ok u
      ]
    ]
