-- ===== src/Driver/Grpc/Reflect.antt =====
-- internal/driver/grpc.go: `fetchMethodInfo`. What the reflection service answers, the parser of descriptors and the
-- descriptors of the registered files are parameters.
use sendit.Prelude.{ℕ, Bool, List, [], ◌∷◌, Option, none, some, Result, ok, err}
use sendit.Prelude.Assoc.{lookup}
use sendit.Prelude.Text.{Text}
use sendit.Generate.Url.{base_name}
use sendit.Driver.Grpc.Registry.{FileProto, build_file_registry}

-- `MessageResponse`; the files are byte strings.
pub data MessageResponse : Type 0 where
  file_descriptors : List (List ℕ) → MessageResponse
  error_response : (message : Text) → MessageResponse
  unexpected : MessageResponse

-- What the stream does with the request for a service.
pub data Reflection : Type 0 where
  not_opened not_sent not_received : Reflection
  received : MessageResponse → Reflection

-- A descriptor found by its name: a service with its methods, or something else.
pub data Descriptor (Info : Type 0) : Type 0 where
  service : (methods : List (Text × Info)) → Descriptor Info
  no_service : Descriptor Info

pub data FetchError : Type 0 where
  opening sending receiving unexpected_type bad_file : FetchError
  reflection_error : Text → FetchError
  unknown_service not_a_service unknown_method : Text → FetchError

module _ {Info : Type 0} (parse_file : List ℕ → Option FileProto) (global : Text → Bool)
    (fits : List Text → FileProto → Bool) (find : List Text → Text → Option (Descriptor Info)) where
  -- The loop of `buildFileRegistry` that parses the files.
  unfoldable pub parse_files : List (List ℕ) → Option (List FileProto)
  parse_files [] = some []
  parse_files (b ∷ bs) = elim (parse_file b) [
    | none ↦ none
    | some f ↦ elim (parse_files bs) [ none ↦ none | some fs ↦ some (f ∷ fs) ]
  ]

  -- From the descriptor of the service on.
  unfoldable pub method_of : Option (Descriptor Info) → Text → Text → Result FetchError Info
  unfolding lookup base_name
  method_of none service_name full_method = err (unknown_service service_name)
  method_of (some no_service) service_name full_method = err (not_a_service service_name)
  method_of (some (service methods)) service_name full_method =
      elim (lookup (base_name full_method) methods) [
        | none ↦ err (unknown_method (base_name full_method))
        | some info ↦ ok info
      ]

  unfoldable pub fetch_method_info : Reflection → Text → Text → Result FetchError Info
  unfolding parse_files build_file_registry method_of
  fetch_method_info not_opened service_name full_method = err opening
  fetch_method_info not_sent service_name full_method = err sending
  fetch_method_info not_received service_name full_method = err receiving
  fetch_method_info (received (error_response message)) service_name full_method =
      err (reflection_error message)
  fetch_method_info (received unexpected) service_name full_method = err unexpected_type
  fetch_method_info (received (file_descriptors files)) service_name full_method =
      elim (parse_files files) [
        | none ↦ err bad_file
        | some fs ↦
            method_of (find (build_file_registry global fits fs) service_name) service_name
              full_method
      ]
