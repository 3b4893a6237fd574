-- ===== src/Driver/Grpc.antt =====
-- internal/driver/grpc.go. The gRPC library, reflection and protobuf are parameters.
pub mod Conns
pub mod Registry
pub mod Files
pub mod Closed
pub mod Reflect
mod Tests
use sendit.Prelude.{
  ℕ, zero, suc, ◌+◌, ◌==◌, Bool, true, false, not, ◌&&◌, ◌||◌, List, [], ◌∷◌, ◌++◌, Option, none,
  some, if◌then◌else◌, Result, ok, err, leb, length,
}
use sendit.Prelude.Int.{ℤ, pos, leb_ℤ}
use sendit.Prelude.Text.{Text, codes, text_eq, one_of}
use sendit.Prelude.Assoc.{lookup, insert}
use sendit.Config.Schema.{GrpcConfig}
use sendit.Config.Validate.{is_empty}

-- The codes of package google.golang.org/grpc/codes, by their numbers.
unfoldable pub grpc_status_to_http : ℕ → ℕ
grpc_status_to_http c =
    if c == 0
    then 200
    else if c == 3 || c == 11
    then 400
    else if c == 16
    then 401
    else if c == 7
    then 403
    else if c == 5
    then 404
    else if c == 6
    then 409
    else if c == 8
    then 429
    else if c == 12
    then 501
    else if c == 14
    then 503
    else if c == 4
    then 504
    else 500

-- `strings.SplitN(s, "/", 2)`, if it has two parts.
unfoldable pub split_slash : Text → Option (Text × Text)
split_slash [] = none
split_slash (c ∷ s) =
    let rest = split_slash s in
    if c == b'/' then some ([], s) else (elim rest [ none ↦ none | some (a, b) ↦ some (c ∷ a, b) ])

unfoldable pub trim_slash : Text → Text
trim_slash [] = []
trim_slash (c ∷ s) = if c == b'/' then s else c ∷ s

-- The name of the service in a path, if it is /Service/Method.
unfoldable pub service_of : Text → Option Text
unfolding split_slash trim_slash is_empty
service_of path = elim (split_slash (trim_slash path)) [
  | none ↦ none
  | some (service, method) ↦ if is_empty service || is_empty method then none else some service
]

unfoldable pub tls_mode : Bool → Bool → Text
tls_mode use_tls insecure =
    if use_tls && insecure
    then codes "tls-insecure"
    else if use_tls
    then codes "tls"
    else codes "plain"

unfoldable pub conn_key : Text → Bool → Bool → Text
unfolding tls_mode
conn_key addr use_tls insecure = addr ++ (b':' ∷ tls_mode use_tls insecure)

-- `credentials`: none at all, or TLS with or without a check of the certificate.
pub data Credentials : Type 0 where
  plain : Credentials
  tls : (verified : Bool) → Credentials

unfoldable pub credentials_of : Bool → Bool → Credentials
credentials_of use_tls insecure = if use_tls then tls (not insecure) else plain

-- A client: its number, and what it was made with.
pub record ClientConn : Type 0 where
  pub id : ℕ
  pub addr : Text
  pub creds : Credentials

-- The method descriptors are kept as what the parameter `Info` has of them.
pub record GrpcDriver (Info : Type 0) : Type 0 where
  pub conns : List (Text × ClientConn)
  pub methods : List (Text × Info)

-- `getConn`, which holds the lock; `new_client` is `grpc.NewClient`.
unfoldable pub get_conn :
    {E Info : Type 0}
    → (Text → Credentials → Result E ℕ)
    → GrpcDriver Info
    → Text
    → Bool
    → Bool
    → GrpcDriver Info × Result E ClientConn
unfolding conn_key lookup insert credentials_of
get_conn new_client d addr use_tls insecure =
    elim (lookup (conn_key addr use_tls insecure) d.conns) [
      | some conn ↦ (d, ok conn)
      | none ↦ elim (new_client addr (credentials_of use_tls insecure)) [
        | err e ↦ (d, err e)
        | ok id ↦
            let conn : ClientConn = record {
              id = id;
              addr = addr;
              creds = credentials_of use_tls insecure;
            } in
            (record d { conns = insert (conn_key addr use_tls insecure) conn d.conns }, ok conn)
      ]
    ]

-- `resolveMethod`, on the target that the client reports and on what `fetchMethodInfo` returns.
unfoldable pub resolve_method :
    {E Info : Type 0}
    → GrpcDriver Info
    → Text
    → Text
    → Result E Info
    → GrpcDriver Info × Result E Info
unfolding lookup insert
resolve_method d target full_method fetched = elim (lookup (target ++ full_method) d.methods) [
  | some info ↦ (d, ok info)
  | none ↦ elim fetched [
    | err e ↦ (d, err e)
    | ok info ↦ (record d { methods = insert (target ++ full_method) info d.methods }, ok info)
  ]
]

-- What `Execute` calls: `url.Parse` (scheme, host and path), `grpc.NewClient`, the target of a client,
-- reflection, the parsing of the body, and a call within a number of seconds, with the code of its status.
pub record Calls (E Info : Type 0) : Type 0 where
  pub parse : Text → Result E (Text × Text × Text)
  pub new_client : Text → Credentials → Result E ℕ
  pub target : ClientConn → Text
  pub fetch_method_info : ClientConn → Text → Text → Result E Info
  pub unmarshal : Text → Info → Option E
  pub invoke : ClientConn → Text → Info → Text → ℤ → ℕ

pub data GrpcError (E : Type 0) : Type 0 where
  parsing_url : E → GrpcError E
  bad_path : Text → GrpcError E
  no_client : E → GrpcError E
  no_method : E → GrpcError E
  bad_body : E → GrpcError E

unfoldable pub grpc_timeout_s : GrpcConfig → ℤ
grpc_timeout_s cfg = if leb_ℤ cfg.timeout_s (pos 0) then pos 15 else cfg.timeout_s

module _ {E Info : Type 0} (calls : Calls E Info) where
  -- From the connection on: the status, or an error.
  unfoldable pub call_method :
      GrpcDriver Info
      → ClientConn
      → GrpcConfig
      → Text
      → Text
      → GrpcDriver Info × Result (GrpcError E) ℕ
  unfolding resolve_method is_empty grpc_status_to_http grpc_timeout_s
  call_method d conn cfg service path =
      let resolved =
        resolve_method d (calls.target conn) path (calls.fetch_method_info conn service path) in
      elim resolved.1 [
        | err e ↦ (resolved.0, err (no_method e))
        | ok info ↦ elim (if is_empty cfg.body then none else calls.unmarshal cfg.body info) [
          | some e ↦ (resolved.0, err (bad_body e))
          | none ↦ (
            resolved.0,
            ok (grpc_status_to_http (calls.invoke conn path info cfg.body (grpc_timeout_s cfg))),
          )
        ]
      ]

  unfoldable pub grpc_execute :
      GrpcDriver Info → GrpcConfig → Text → GrpcDriver Info × Result (GrpcError E) ℕ
  unfolding service_of get_conn call_method text_eq
  grpc_execute d cfg url = elim (calls.parse url) [
    | err e ↦ (d, err (parsing_url e))
    | ok (scheme, addr, path) ↦ elim (service_of path) [
      | none ↦ (d, err (bad_path path))
      | some service ↦
          let got =
            get_conn calls.new_client d addr (text_eq scheme (codes "grpcs") || cfg.tls)
              cfg.insecure in
          elim got.1 [
            | err e ↦ (got.0, err (no_client e))
            | ok conn ↦ call_method got.0 conn cfg service path
          ]
    ]
  ]
