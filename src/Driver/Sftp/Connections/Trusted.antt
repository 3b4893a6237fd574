-- ===== src/Driver/Sftp/Connections/Trusted.antt =====
-- internal/driver/sftp.go: whom a cached connection was opened for.
use sendit.Prelude.{ℕ, ◌≡◌, refl, sym, subst, ◌∙◌, some, Bool-cases, Option-cases, inl, inr}
use sendit.Prelude.Text.{Text, text_eq, text_eq_iff}
use sendit.Prelude.Assoc.{lookup, delete, lookup-insert, lookup-delete}
use sendit.Config.Schema.{SftpConfig}
use sendit.Driver.Sftp.{sftp_cache_key, sftp_auth_material, key_parts}
use sendit.Driver.Sftp.Key.{sftp_cache_key-inj}
use sendit.Driver.Sftp.Connections.{
  Connection, SftpDriver, cached, find_conn, close_conn, put_conn, evict, opened, Step, find, close,
  put, fail, Reach, start, next,
}

-- The connections are stored under the keys of what they were opened with.
abbrev Filed : SftpDriver → Type 0
Filed d =
    (key : Text) (conn : Connection)
    → lookup key d.conns ≡ some conn
    → (key ≡ sftp_cache_key conn.addr conn.cfg) × (conn.auth_material ≡ sftp_auth_material conn.cfg)

delete-Filed :
    (d : SftpDriver) (gone : Text) → Filed d → Filed (record d { conns = delete gone d.conns })
delete-Filed d gone f key conn e = elim (Bool-cases (text_eq gone key)) [
  | inl same ↦ absurd (cc (rw (lookup-delete gone key d.conns, same) at e))
  | inr other ↦ f key conn (rw (lookup-delete gone key d.conns, other) at e)
]

put-Filed :
    (d : SftpDriver) (id : ℕ) (addr : Text) (cfg : SftpConfig) (version : Text)
    → Filed d
    → Filed (put_conn d (sftp_cache_key addr cfg) (opened id addr cfg version))
unfolding put_conn opened
put-Filed d id addr cfg version f key conn e =
    elim (Bool-cases (text_eq (sftp_cache_key addr cfg) key)) [
      | inl same ↦
          let it : opened id addr cfg version ≡ conn = cc (
            rw
              (
                lookup-insert (sftp_cache_key addr cfg) key (opened id addr cfg version) d.conns,
                same,
              )
              at e) in
          subst
            (λ c.
              (key ≡ sftp_cache_key c.addr c.cfg) × (c.auth_material ≡ sftp_auth_material c.cfg))
            it (sym ((text_eq_iff (sftp_cache_key addr cfg) key).0 same), refl)
      | inr other ↦ f key conn (
          rw
            (
              lookup-insert (sftp_cache_key addr cfg) key (opened id addr cfg version) d.conns,
              other,
            )
            at e)
    ]

find-Filed : (d : SftpDriver) (key material : Text) → Filed d → Filed (find_conn d key material).0
unfolding find_conn
find-Filed d key material f = elim (Option-cases (lookup key d.conns)) [
  | inl new ↦ rw (new, find_conn) f
  | inr (conn, old) ↦ elim (Bool-cases (text_eq conn.auth_material material)) [
    | inl same ↦ rw (old, same, find_conn) f
    | inr other ↦ rw (old, other, find_conn) (delete-Filed d key f)
  ]
]

evict-Filed : (d : SftpDriver) (key : Text) → Filed d → Filed (evict d key)
unfolding evict close_conn
evict-Filed d key f = elim (Option-cases (lookup key d.conns)) [
  | inl new ↦ rw (new, evict) (delete-Filed d key f)
  | inr (conn, old) ↦ rw (old, evict) (delete-Filed d key f)
]

step-Filed : {d e : SftpDriver} → Step d e → Filed d → Filed e
unfolding close_conn
step-Filed {d} (find addr cfg) f = find-Filed d (sftp_cache_key addr cfg) (sftp_auth_material cfg) f
step-Filed {d} (close conn) f = f
step-Filed {d} (put id addr cfg version) f = put-Filed d id addr cfg version f
step-Filed {d} (fail addr cfg) f = evict-Filed d (sftp_cache_key addr cfg) f

reach-Filed : {d : SftpDriver} → Reach d → Filed d
unfolding lookup
reach-Filed start = λ key conn e. absurd (cc e)
reach-Filed (next r s) = step-Filed s (reach-Filed r)

-- In every state that goroutines bring the driver to, a connection that `getConn` finds in the cache for an address and
-- a configuration was opened for that address, user and method of authentication, the same check of the host
-- key, the same lists of algorithms, each joined with commas, and the same password or private key.
pub find_conn-Reach :
    (d : SftpDriver) (addr : Text) (cfg : SftpConfig) (conn : Connection)
    → Reach d
    → (find_conn d (sftp_cache_key addr cfg) (sftp_auth_material cfg)).1 ≡ cached conn
    → (key_parts conn.addr conn.cfg ≡ key_parts addr cfg)
      × (sftp_auth_material conn.cfg ≡ sftp_auth_material cfg)
unfolding find_conn
find_conn-Reach d addr cfg conn r e =
    elim (Option-cases (lookup (sftp_cache_key addr cfg) d.conns)) [
      | inl new ↦ absurd (cc (rw (new, find_conn) at e))
      | inr (there, old) ↦
          elim (Bool-cases (text_eq there.auth_material (sftp_auth_material cfg))) [
            | inr other ↦ absurd (cc (rw (old, other, find_conn) at e))
            | inl same ↦
                let it : there ≡ conn = cc (rw (old, same, find_conn) at e) in
                let filed = reach-Filed r (sftp_cache_key addr cfg) there old in
                subst
                  (λ c.
                    (key_parts c.addr c.cfg ≡ key_parts addr cfg)
                    × (sftp_auth_material c.cfg ≡ sftp_auth_material cfg))
                  it
                  (
                    sym (sftp_cache_key-inj addr there.addr cfg there.cfg filed.0),
                    sym filed.1 ∙ (text_eq_iff there.auth_material (sftp_auth_material cfg)).0 same,
                  )
          ]
    ]
