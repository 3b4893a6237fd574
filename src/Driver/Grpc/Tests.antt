-- ===== src/Driver/Grpc/Tests.antt =====
-- internal/driver/grpc.go: runs with a library that is given.
use sendit.Prelude.{ℕ, ◌≡◌, refl, Bool, true, false, List, [], ◌∷◌, none, some, Result, ok, err}
use sendit.Prelude.Text.{Text, codes, text_eq}
use sendit.Config.Samples.{plain_grpc}
use sendit.Driver.Grpc.{
  service_of, Credentials, tls, credentials_of, GrpcDriver, get_conn, Calls, bad_path, grpc_execute,
}
use sendit.Driver.Grpc.Registry.{FileProto, build_file_registry}
use sendit.Driver.Grpc.Conns.{start, next, get_conn-Reach}
use sendit.Driver.Grpc.Reflect.{
  Reflection, received, file_descriptors, Descriptor, fetch_method_info,
}

abbrev first_client : Text → Credentials → Result Text ℕ
first_client addr creds = ok 1

abbrev empty_driver : GrpcDriver Text
empty_driver = record { conns = []; methods = [] }

get_conn-Reach_example : (codes "a:1" ≡ codes "a:1") × (tls true ≡ credentials_of true false)
unfolding get_conn credentials_of text_eq
get_conn-Reach_example =
    get_conn-Reach first_client (get_conn first_client empty_driver (codes "a:1") false false).0
      (codes "a:1") true false (record { id = 1; addr = codes "a:1"; creds = tls true })
      (next empty_driver (codes "a:1") false false (start [])) refl

abbrev file : Text → List Text → FileProto
file name imports = record { name = name; imports = imports }

abbrev nothing_global : Text → Bool
nothing_global name = false

abbrev all_fit : List Text → FileProto → Bool
all_fit registered f = true

abbrev two_files : List FileProto
two_files = file (codes "a") [] ∷ file (codes "b") (codes "a" ∷ []) ∷ []

takes_both : build_file_registry nothing_global all_fit two_files ≡ codes "b" ∷ codes "a" ∷ []
unfolding build_file_registry text_eq
takes_both = refl

-- A longer path than /Service/Method is resolved by its last element.
abbrev reflected : Reflection
reflected = received (file_descriptors ((1 ∷ []) ∷ []))

long_path :
    fetch_method_info {Info = Text}
      (λ bytes. some (file (codes "a") []))
      nothing_global
      all_fit
      (λ files name. some (Descriptor.service ((codes "Get", codes "info") ∷ [])))
      reflected
      (codes "p.S")
      (codes "/p.S/x/Get")
    ≡ ok (codes "info")
unfolding fetch_method_info
long_path = refl

-- Of four files that each import the one behind, the first is not registered: the number of rounds shrinks
-- with that of the files left.
reversed_chain :
    build_file_registry nothing_global all_fit (
      file (codes "d") (codes "c" ∷ [])
      ∷ file (codes "c") (codes "b" ∷ [])
      ∷ file (codes "b") (codes "a" ∷ [])
      ∷ file (codes "a") []
      ∷ [])
    ≡ codes "c" ∷ codes "b" ∷ codes "a" ∷ []
unfolding build_file_registry
reversed_chain = refl

service : service_of (codes "/p.Service/Method") ≡ some (codes "p.Service")
unfolding service_of
service = refl

abbrev small_calls : Calls Text Text
small_calls = record {
  parse = λ url. ok (codes "grpc", codes "a:1", url);
  new_client = first_client;
  target = λ conn. conn.addr;
  fetch_method_info = λ conn service path. ok service;
  unmarshal = λ body info. none;
  invoke = λ conn path info body timeout. 5;
}

not_found : (grpc_execute small_calls empty_driver plain_grpc (codes "/s/m")).1 ≡ ok 404
unfolding grpc_execute
not_found = refl

no_method :
    (grpc_execute small_calls empty_driver plain_grpc (codes "/s")).1 ≡ err (bad_path (codes "/s"))
unfolding grpc_execute
no_method = refl
