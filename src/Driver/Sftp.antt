-- ===== src/Driver/Sftp.antt =====
-- internal/driver/sftp.go: what is computed from a configuration, and the codes of errors.
-- A text is its bytes.
pub mod Key
pub mod Connections
pub mod Network
pub mod Ssh
pub mod Run
pub mod Payload
mod Tests
use sendit.Prelude.{
  ℕ, zero, suc, ◌+◌, ◌-◌, ◌%◌, ◌==◌, Bool, true, false, not, ◌&&◌, ◌||◌, List, [], ◌∷◌, ◌++◌,
  Option, none, some, if◌then◌else◌, ltb, length, Result, ok, err,
}
use sendit.Prelude.Int.{ℤ, pos, negsuc, pos_part, leb_ℤ}
use sendit.Prelude.Decimal.{itoa, itoa_ℤ}
use sendit.Prelude.Text.{Text, codes, contains, to_lower}
use sendit.Config.Schema.{SftpConfig}
use sendit.Config.Validate.{is_empty}

-- `strings.Join(list, ",")`.
unfoldable pub join_comma : List Text → Text
join_comma [] = []
join_comma (s ∷ []) = s
join_comma (s ∷ t ∷ more) = s ++ (b',' ∷ join_comma (t ∷ more))

unfoldable pub sftp_auth_method : SftpConfig → Text
unfolding is_empty
sftp_auth_method cfg =
    if not (is_empty cfg.password)
    then codes "password"
    else if not (is_empty cfg.private_key)
    then codes "publickey"
    else []

unfoldable pub sftp_auth_material : SftpConfig → Text
unfolding is_empty
sftp_auth_material cfg =
    if not (is_empty cfg.password)
    then codes "password:" ++ cfg.password
    else if not (is_empty cfg.private_key)
    then codes "publickey:" ++ cfg.private_key
    else []

unfoldable pub write_cache_part : Text → Text
unfolding itoa
write_cache_part s = itoa (length s) ++ (b':' ∷ s ++ (b'|' ∷ []))

unfoldable pub format_bool : Bool → Text
format_bool b = if b then codes "true" else codes "false"

-- What `sftpCacheKey` writes, in its order.
unfoldable pub key_parts : Text → SftpConfig → List Text
unfolding sftp_auth_method format_bool join_comma
key_parts addr cfg =
    addr
    ∷ cfg.username
    ∷ sftp_auth_method cfg
    ∷ format_bool cfg.insecure
    ∷ join_comma cfg.allowed_ciphers
    ∷ join_comma cfg.allowed_kex
    ∷ join_comma cfg.allowed_host_key_types
    ∷ join_comma cfg.allowed_macs
    ∷ []

unfoldable pub write_parts : List Text → Text
unfolding write_cache_part
write_parts [] = []
write_parts (s ∷ more) = write_cache_part s ++ write_parts more

unfoldable pub sftp_cache_key : Text → SftpConfig → Text
unfolding write_parts key_parts
sftp_cache_key addr cfg = write_parts (key_parts addr cfg)

unfoldable pub sftp_timeout_s : SftpConfig → ℤ
sftp_timeout_s cfg = if leb_ℤ cfg.timeout_s (pos 0) then pos 30 else cfg.timeout_s

-- `sftpAddress`, on the host and the port of the URL; `join_host_port` is that of package net.
unfoldable pub sftp_address : (Text → Text → Text) → Text → Text → ℤ → Text
unfolding is_empty itoa_ℤ
sftp_address join_host_port host port cfg_port =
    join_host_port host
      (if is_empty port then itoa_ℤ (if leb_ℤ cfg_port (pos 0) then pos 22 else cfg_port) else port)

-- An error: what `errors.Is`, `os.IsPermission` and `os.IsNotExist` say of it, and its text.
pub record Failure : Type 0 where
  pub deadline_exceeded : Bool
  pub canceled : Bool
  pub fx_permission_denied : Bool
  pub fx_no_such_file : Bool
  pub is_permission : Bool
  pub is_not_exist : Bool
  pub message : Text

-- The `switch` on the text of an error.
unfoldable pub message_to_http : Text → ℕ
unfolding contains
message_to_http msg =
    if contains msg (codes "unable to authenticate") || contains msg (codes "permission denied")
    then 401
    else if contains msg (codes "access denied")
        || (contains msg (codes "failure") && contains msg (codes "permission"))
    then 403
    else if contains msg (codes "no such file")
        || (contains msg (codes "file does not exist") || contains msg (codes "not found"))
    then 404
    else if contains msg (codes "timeout") || contains msg (codes "deadline exceeded")
    then 504
    else 502

unfoldable pub sftp_error_to_http : Option Failure → ℕ
unfolding message_to_http to_lower
sftp_error_to_http none = 200
sftp_error_to_http (some e) =
    if e.deadline_exceeded || e.canceled
    then 504
    else if e.fx_permission_denied
    then 403
    else if e.fx_no_such_file
    then 404
    else if e.is_permission
    then 403
    else if e.is_not_exist
    then 404
    else message_to_http (to_lower e.message)

abbrev pub eicar_test_file : Text
eicar_test_file = codes "X5O!P%@AP[4\\PZX54(P^)7CC)7}$EICAR-STANDARD-ANTIVIRUS-TEST-FILE!$H+H*"

-- `secureInt64N`, on what `cryptorand.Int` draws, or none if it fails.
unfoldable pub secure_int64_n : Option ℕ → ℕ → ℕ
secure_int64_n draw zero = 0
secure_int64_n none (suc n) = 0
secure_int64_n (some r) (suc n) = r

-- The size of an upload. Sizes that are not positive do what 0 does.
unfoldable pub payload_size : SftpConfig → Option ℕ → ℕ
unfolding secure_int64_n
payload_size cfg draw =
    let lo = pos_part cfg.file_size_min_bytes in
    let hi = pos_part cfg.file_size_max_bytes in
    let max_size = if hi == 0 then lo else hi in
    let min_size = if lo == 0 then max_size else lo in
    if not (pos_part cfg.file_size_bytes == 0)
    then pos_part cfg.file_size_bytes
    else if min_size == 0
    then 1024
    else if ltb min_size max_size
    then min_size + secure_int64_n draw (max_size - min_size + 1)
    else min_size

unfoldable pub letters : ℕ → ℕ → Text
letters i zero = []
letters i (suc n) = (b'a' + i % 26) ∷ letters (i + 1) n

unfoldable pub sftp_payload : SftpConfig → Option ℕ → Text
unfolding payload_size letters
sftp_payload cfg draw = if cfg.eicar then eicar_test_file else letters 0 (payload_size cfg draw)
