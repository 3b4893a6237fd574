-- ===== src/Driver/Auth/Laws.antt =====
-- internal/driver/auth.go: what `validate` makes sure of.
use sendit.Prelude.{
  ◌≡◌, ◌≢◌, refl, true, false, ◌&&◌, [], ◌++◌, none, ok, arith, Bool-cases, Option-cases, inl, inr,
}
use sendit.Prelude.Text.{Text, codes, text_eq, one_of}
use sendit.Prelude.Distinct.{text_eq_comm}
use sendit.Config.Schema.{AuthConfig}
use sendit.Config.Validate.{is_empty, auth_checks, validate_auth}
use sendit.Config.Validate.Accepted.{kept-nil}
use sendit.Driver.Auth.{Request, Web, resolve_value, set_header, password_or_empty, apply_auth}

resolve_value-ok :
    (getenv : Text → Text) (literal env_var : Text)
    → (is_empty env_var ≡ false → is_empty (getenv env_var) ≡ false)
    → (is_empty literal && is_empty env_var) ≡ false
    → (v : Text) × (resolve_value getenv literal env_var ≡ ok v)
unfolding resolve_value
resolve_value-ok getenv literal env_var set given = elim (Bool-cases (is_empty literal)) [
  | inr there ↦ (literal, rw (there, resolve_value) refl)
  | inl no_literal ↦
      let named : is_empty env_var ≡ false = ground (arith, given, no_literal) in
      (getenv env_var, rw (no_literal, named, set named, resolve_value) refl)
]

-- What a validated configuration gives for each type.
record Given (cfg : AuthConfig) : Type 0 where
  bearer :
      text_eq cfg.kind (codes "bearer") ≡ true
      → (is_empty cfg.token && is_empty cfg.token_env) ≡ false
  basic :
      text_eq cfg.kind (codes "basic") ≡ true
      → (is_empty cfg.username && is_empty cfg.username_env) ≡ false
  header :
      text_eq cfg.kind (codes "header") ≡ true
      → (is_empty cfg.token && is_empty cfg.token_env) ≡ false
  query :
      text_eq cfg.kind (codes "query") ≡ true
      → (is_empty cfg.token && is_empty cfg.token_env) ≡ false

validate_auth-Given :
    (cfg : AuthConfig) → is_empty cfg.kind ≡ false → validate_auth cfg ≡ [] → Given cfg
unfolding validate_auth auth_checks one_of
validate_auth-Given cfg kind valid =
    let found = kept-nil (auth_checks cfg) (rw kind at valid) in
    record {
      bearer = λ k. ground (arith, k, found.1.0, text_eq_comm cfg.kind (codes "bearer"));
      basic = λ k. ground (arith, k, found.1.1.1.1.0);
      header = λ k. ground (arith, k, found.1.1.1.0);
      query = λ k. ground (arith, k, found.1.0, text_eq_comm cfg.kind (codes "query"));
    }

-- Where the variables are set that a validated configuration names for its token and its user, if it names them, and
-- the URL of the request is one that net/url parses, `applyAuth` has no error.
pub apply_auth-validate_auth :
    (web : Web) (req : Request) (cfg : AuthConfig)
    → validate_auth cfg ≡ []
    → (is_empty cfg.token_env ≡ false → is_empty (web.getenv cfg.token_env) ≡ false)
    → (is_empty cfg.username_env ≡ false → is_empty (web.getenv cfg.username_env) ≡ false)
    → ((name value : Text) → web.with_parameter req.url name value ≢ none)
    → (done : Request) × (apply_auth web req cfg ≡ ok done)
unfolding apply_auth
apply_auth-validate_auth web req cfg valid token_set user_set parsed =
    elim (Bool-cases (is_empty cfg.kind)) [
      | inl no_kind ↦ (req, rw (no_kind, apply_auth) refl)
      | inr kind ↦
          let g : Given cfg = validate_auth-Given cfg kind valid in
          elim (Bool-cases (text_eq cfg.kind (codes "bearer"))) [
            | inl bearer ↦
                let (token, e) =
                  resolve_value-ok web.getenv cfg.token cfg.token_env token_set (g.bearer bearer) in
                (
                  set_header web (codes "Authorization") (codes "Bearer " ++ token) req,
                  rw (kind, bearer, e, apply_auth) refl,
                )
            | inr other ↦ elim (Bool-cases (text_eq cfg.kind (codes "basic"))) [
              | inl basic ↦
                  let (user, e) =
                    resolve_value-ok web.getenv cfg.username cfg.username_env user_set
                      (g.basic basic) in
                  (
                    set_header web (codes "Authorization")
                        (web.basic user (
                          password_or_empty
                            (resolve_value web.getenv cfg.password cfg.password_env)))
                        req,
                    rw (kind, other, basic, e, apply_auth) refl,
                  )
              | inr no_basic ↦ elim (Bool-cases (text_eq cfg.kind (codes "header"))) [
                | inl header ↦
                    let (token, e) =
                      resolve_value-ok web.getenv cfg.token cfg.token_env token_set
                        (g.header header) in
                    (
                      set_header web cfg.header_name token req,
                      rw (kind, other, no_basic, header, e, apply_auth) refl,
                    )
                | inr no_header ↦ elim (Bool-cases (text_eq cfg.kind (codes "query"))) [
                  | inr no_query ↦
                      (req, rw (kind, other, no_basic, no_header, no_query, apply_auth) refl)
                  | inl query ↦
                      let (token, e) =
                        resolve_value-ok web.getenv cfg.token cfg.token_env token_set
                          (g.query query) in
                      elim (Option-cases (web.with_parameter req.url cfg.param_name token)) [
                        | inl bad ↦ absurd (parsed cfg.param_name token bad)
                        | inr (url, u) ↦ (
                          record req { url = url },
                          rw (kind, other, no_basic, no_header, query, e, u, apply_auth) refl,
                        )
                      ]
                ]
              ]
            ]
          ]
    ]
