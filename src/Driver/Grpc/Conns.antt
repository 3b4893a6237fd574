-- ===== src/Driver/Grpc/Conns.antt =====
-- internal/driver/grpc.go: the cache of clients.
use sendit.Prelude.{
  ℕ, ◌≡◌, refl, sym, ap, subst, ◌∙◌, Bool, true, false, List, [], ◌∷◌, ◌++◌, some, if◌then◌else◌,
  Result, ok, arith, Bool-cases, Option-cases, Result-cases, inl, inr,
}
use sendit.Prelude.Text.{Text, codes, text_eq, text_eq_iff}
use sendit.Prelude.Assoc.{lookup, insert, lookup-insert}
use sendit.Generate.Url.{has_byte}
use sendit.Driver.Grpc.{
  tls_mode, conn_key, Credentials, plain, tls, credentials_of, ClientConn, GrpcDriver, get_conn,
}

has_byte-append : (s t : Text) → has_byte b':' (s ++ (b':' ∷ t)) ≡ true
unfolding has_byte
has_byte-append [] t = refl
has_byte-append (c ∷ s) t = ground (arith, has_byte-append s t)

-- A text is split at its last colon in one way.
last_colon :
    (a b m n : Text)
    → has_byte b':' m ≡ false
    → has_byte b':' n ≡ false
    → a ++ (b':' ∷ m) ≡ b ++ (b':' ∷ n)
    → (a ≡ b) × (m ≡ n)
last_colon [] [] m n hm hn e = (refl, cc e)
last_colon [] (c ∷ b) m n hm hn e =
    let same : m ≡ b ++ (b':' ∷ n) = cc e in
    absurd (cc (sym hm, ap (has_byte b':') same, has_byte-append b n))
last_colon (c ∷ a) [] m n hm hn e =
    let same : a ++ (b':' ∷ m) ≡ n = cc e in
    absurd (cc (sym hn, ap (has_byte b':') same, has_byte-append a m))
last_colon (c ∷ a) (d ∷ b) m n hm hn e =
    let head : c ≡ d = cc e in
    let rest : a ++ (b':' ∷ m) ≡ b ++ (b':' ∷ n) = cc e in
    let both = last_colon a b m n hm hn rest in (ap (λ l. l) (cc (head, both.0)), both.1)

tls_mode-no_colon : (t i : Bool) → has_byte b':' (tls_mode t i) ≡ false
unfolding tls_mode has_byte
tls_mode-no_colon true true = refl
tls_mode-no_colon true false = refl
tls_mode-no_colon false i = refl

-- The credentials, from the mode in the key.
abbrev from_mode : Text → Credentials
from_mode m =
    if text_eq m (codes "plain")
    then plain
    else if text_eq m (codes "tls")
    then tls true
    else tls false

from_mode-tls_mode : (t i : Bool) → from_mode (tls_mode t i) ≡ credentials_of t i
unfolding tls_mode credentials_of text_eq
from_mode-tls_mode true true = refl
from_mode-tls_mode true false = refl
from_mode-tls_mode false true = refl
from_mode-tls_mode false false = refl

conn_key-inj :
    (a b : Text) (t i u j : Bool)
    → conn_key a t i ≡ conn_key b u j
    → (a ≡ b) × (credentials_of t i ≡ credentials_of u j)
unfolding conn_key
conn_key-inj a b t i u j e =
    let both =
      last_colon a b (tls_mode t i) (tls_mode u j) (tls_mode-no_colon t i) (tls_mode-no_colon u j)
        e in
    (both.0, sym (from_mode-tls_mode t i) ∙ ap from_mode both.1 ∙ from_mode-tls_mode u j)

module _ {E Info : Type 0} (new_client : Text → Credentials → Result E ℕ) where
  -- The drivers that calls of `getConn` lead to; the other operations leave the clients alone.
  pub data Reach : GrpcDriver Info → Type 0 where
    start : (methods : List (Text × Info)) → Reach (record { conns = []; methods = methods })
    next :
        (d : GrpcDriver Info) (addr : Text) (use_tls insecure : Bool)
        → Reach d
        → Reach (get_conn new_client d addr use_tls insecure).0
    learn :
        (d : GrpcDriver Info) (methods : List (Text × Info))
        → Reach d
        → Reach (record d { methods = methods })

  -- The clients are stored under the keys of what they were made with.
  abbrev Filed : GrpcDriver Info → Type 0
  Filed d =
      (addr : Text) (t i : Bool) (conn : ClientConn)
      → lookup (conn_key addr t i) d.conns ≡ some conn
      → (conn.addr ≡ addr) × (conn.creds ≡ credentials_of t i)

  get_conn-Filed :
      (d : GrpcDriver Info) (addr : Text) (t i : Bool)
      → Filed d
      → Filed (get_conn new_client d addr t i).0
  unfolding get_conn
  get_conn-Filed d addr t i f = elim (Option-cases (lookup (conn_key addr t i) d.conns)) [
    | inr (conn, old) ↦ rw (old, get_conn) f
    | inl new ↦ elim (Result-cases (new_client addr (credentials_of t i))) [
      | inl (e, bad) ↦ rw (new, bad, get_conn) f
      | inr (id, good) ↦ rw (new, good, get_conn) (stored id)
    ]
  ]
    where
      stored :
          (id : ℕ)
          → Filed (record d {
            conns =
                insert
                  (conn_key addr t i)
                  (record { id = id; addr = addr; creds = credentials_of t i })
                  d.conns;
          })
      stored id b u j conn e =
          let made : ClientConn = record { id = id; addr = addr; creds = credentials_of t i } in
          elim (Bool-cases (text_eq (conn_key addr t i) (conn_key b u j))) [
            | inr other ↦
                f b u j conn
                  (rw (lookup-insert (conn_key addr t i) (conn_key b u j) made d.conns, other) at e)
            | inl same ↦
                let it : made ≡ conn = cc (
                  rw (lookup-insert (conn_key addr t i) (conn_key b u j) made d.conns, same) at
                    e) in
                let keys =
                  conn_key-inj addr b t i u j
                    ((text_eq_iff (conn_key addr t i) (conn_key b u j)).0 same) in
                subst (λ c. (c.addr ≡ b) × (c.creds ≡ credentials_of u j)) it keys
          ]

  reach-Filed : {d : GrpcDriver Info} → Reach d → Filed d
  unfolding lookup
  reach-Filed (start methods) = λ addr t i conn e. absurd (cc e)
  reach-Filed (next d addr t i r) = get_conn-Filed d addr t i (reach-Filed r)
  reach-Filed (learn d methods r) = reach-Filed r

  -- In every state that calls bring the driver to, the client that `getConn` returns was made for the address asked
  -- for, with TLS exactly if it was asked for, and with a check of the certificate exactly if that was asked for.
  pub get_conn-Reach :
      (d : GrpcDriver Info) (addr : Text) (t i : Bool) (conn : ClientConn)
      → Reach d
      → (get_conn new_client d addr t i).1 ≡ ok conn
      → (conn.addr ≡ addr) × (conn.creds ≡ credentials_of t i)
  unfolding get_conn
  get_conn-Reach d addr t i conn r e = elim (Option-cases (lookup (conn_key addr t i) d.conns)) [
    | inr (there, old) ↦
        let it : there ≡ conn = cc (rw (old, get_conn) at e) in
        subst (λ c. (c.addr ≡ addr) × (c.creds ≡ credentials_of t i)) it
          (reach-Filed r addr t i there old)
    | inl new ↦ elim (Result-cases (new_client addr (credentials_of t i))) [
      | inl (bad, f) ↦ absurd (cc (rw (new, f, get_conn) at e))
      | inr (id, good) ↦
          let made : ClientConn = record { id = id; addr = addr; creds = credentials_of t i } in
          let it : made ≡ conn = cc (rw (new, good, get_conn) at e) in
          subst (λ c. (c.addr ≡ addr) × (c.creds ≡ credentials_of t i)) it (refl, refl)
    ]
  ]
