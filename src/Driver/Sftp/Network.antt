-- ===== src/Driver/Sftp/Network.antt =====
-- internal/driver/sftp.go: what the driver calls: the parser of URLs, files, keys, dialing and transfers.
use sendit.Prelude.{ℕ, Bool, false, List, ◌++◌, Option, Result}
use sendit.Prelude.Int.{ℤ}
use sendit.Prelude.Text.{Text, codes}
use sendit.Driver.Sftp.{Failure}

-- A URL: its host name, its port and its path.
pub record Place : Type 0 where
  pub host : Text
  pub port : Text
  pub path : Text

-- The parts of `ssh.ClientConfig`; `verified` is whether known_hosts is asked.
pub record SshConfig : Type 0 where
  pub user : Text
  pub secret : Text
  pub verified : Bool
  pub host_key_algorithms : List Text
  pub ciphers : List Text
  pub key_exchanges : List Text
  pub macs : List Text
  pub timeout_s : ℤ

-- What happens to an upload or a download: the context before it, the opening of the file, the copy with
-- the number of its bytes, and the context after it.
pub record Transfer : Type 0 where
  pub before : Option Failure
  pub open_error : Option Failure
  pub copied : ℕ
  pub copy_error : Option Failure
  pub after : Option Failure

pub record Listing : Type 0 where
  pub before : Option Failure
  pub entries : Result Failure (List Text)
  pub after : Option Failure

-- `connect` dials and shakes hands, and gives the version of the server; `new_client` starts the client, and
-- gives its number.
pub record Network : Type 0 where
  pub parse : Text → Result Failure Place
  pub join_host_port : Text → Text → Text
  pub read_file : Text → Result Failure Text
  pub parse_private_key : Text → Option Failure
  pub known_hosts : Option Failure
  pub connect : Text → SshConfig → Result Failure Text
  pub new_client : Text → SshConfig → Result Failure ℕ
  pub upload : ℕ → Text → Text → Transfer
  pub download : ℕ → Text → Transfer
  pub read_dir : ℕ → Text → Listing

abbrev pub Meta : Type 0
Meta = List (Text × Text)

-- An error that is only a text, and one wrapped by `fmt.Errorf`, which `os.IsPermission` does not look into.
abbrev pub text_error : Text → Failure
text_error message = record {
  deadline_exceeded = false;
  canceled = false;
  fx_permission_denied = false;
  fx_no_such_file = false;
  is_permission = false;
  is_not_exist = false;
  message = message;
}

abbrev pub wrap : Text → Failure → Failure
wrap prefix e = record e {
  is_permission = false;
  is_not_exist = false;
  message = prefix ++ codes ": " ++ e.message;
}
