-- ===== src/Revocation/Registry.antt =====
-- ws/internal/gateway/connection_registry.go: the live connections by the id and by the subject of
-- their tokens; and from gateway.go, what a revocation closes and what is checked behind a
-- registration. A connection is its identity with the claims of its token.
use sukko.Common.{
  ℕ, Bool, true, not, ◌&&◌, Option, none, some, List, [], ◌∷◌, ◌≡◌, ◌↔◌, arith, length, keep,
  Equality, eq_iff, contains, if◌then◌else◌, ◌==◌, nat_eq, list_eq,
}
use sukko.Common.Int.{ℤ, leb_ℤ, int_eq}
use sukko.Common.Map.{lookup, insert, delete}
use sukko.Common.Text.{Text}
use sukko.Revocation.Stream.{
  RevocationEntry, RevocationSnapshot, revocation_type_token, revocation_type_user, subject_key,
  is_revoked,
}

pub record Connection : Type 0 where
  pub id : ℕ
  pub sub : Text
  pub jti : Text
  pub iat : ℤ

-- Two pointers are the same: then so are the claims, which stay as they are.
abbrev pub conn_beq : Connection → Connection → Bool
conn_beq a b = a.id == b.id && a.sub == b.sub && a.jti == b.jti && a.iat == b.iat

pub conn_beq_iff : (a b : Connection) → (conn_beq a b ≡ true) ↔ (a ≡ b)
conn_beq_iff a b =
    grind (arith, eq_iff a.id b.id, eq_iff a.sub b.sub, eq_iff a.jti b.jti, eq_iff a.iat b.iat)

instance abbrev pub conn_eq : Equality Connection
conn_eq = record { same = conn_beq; same_iff = conn_beq_iff }

pub record ConnectionRegistry : Type 0 where
  pub by_subject : List (Text × List Connection)
  pub by_jti : List (Text × Connection)

-- What a missing set reads as.
abbrev pub or_empty : Option (List Connection) → List Connection
or_empty none = []
or_empty (some conns) = conns

unfoldable pub add_conn : Connection → List Connection → List Connection
unfolding contains
add_conn conn conns = if contains conns conn then conns else conn ∷ conns

unfoldable pub delete_conn : Connection → List Connection → List Connection
delete_conn conn conns = keep (λ c. not (c == conn)) conns

unfoldable pub register_jti : Connection → Text → ConnectionRegistry → ConnectionRegistry
unfolding insert
register_jti conn jti r = if jti == [] then r else record r { by_jti = insert jti conn r.by_jti }

unfoldable pub register : Connection → Text → Text → Text → ConnectionRegistry → ConnectionRegistry
unfolding register_jti insert lookup subject_key add_conn
register conn tenant_id sub jti r =
    let r' = register_jti conn jti r in
    let key = subject_key tenant_id sub in
    if sub == [] then r' else record r' {
      by_subject = insert key (add_conn conn (or_empty (lookup key r'.by_subject))) r'.by_subject;
    }

unfoldable pub unregister_jti : Text → ConnectionRegistry → ConnectionRegistry
unfolding delete
unregister_jti jti r = if jti == [] then r else record r { by_jti = delete jti r.by_jti }

unfoldable pub unregister_subject : Connection → Text → ConnectionRegistry → ConnectionRegistry
unfolding lookup insert delete delete_conn
unregister_subject conn key r = elim (lookup key r.by_subject) [
  | none ↦ r
  | some conns ↦
      let left = delete_conn conn conns in
      if length left == 0
      then record r { by_subject = delete key r.by_subject }
      else record r { by_subject = insert key left r.by_subject }
]

unfoldable pub unregister :
    Connection → Text → Text → Text → ConnectionRegistry → ConnectionRegistry
unfolding unregister_jti unregister_subject subject_key
unregister conn tenant_id sub jti r =
    let r' = unregister_jti jti r in
    if sub == [] then r' else unregister_subject conn (subject_key tenant_id sub) r'

unfoldable pub find_by_jti : Text → ConnectionRegistry → Option Connection
unfolding lookup
find_by_jti jti r = lookup jti r.by_jti

unfoldable pub find_by_sub : Text → Text → ConnectionRegistry → List Connection
unfolding lookup subject_key
find_by_sub tenant_id sub r = or_empty (lookup (subject_key tenant_id sub) r.by_subject)

-- HandleRevocation: the connections that it closes.
unfoldable pub handle_revocation : RevocationEntry → ConnectionRegistry → List Connection
unfolding find_by_jti find_by_sub
handle_revocation entry r =
    if entry.kind == revocation_type_token
    then elim (find_by_jti entry.jti r) [ none ↦ [] | some conn ↦ conn ∷ [] ]
    else if entry.kind == revocation_type_user
    then keep (λ c. not (leb_ℤ entry.revoked_at c.iat)) (find_by_sub entry.tenant_id entry.sub r)
    else []

-- recheckRevocationAfterRegister: whether it closes the connection.
unfoldable pub recheck_revocation_after_register : RevocationSnapshot → Connection → Text → Bool
unfolding is_revoked
recheck_revocation_after_register snap conn tenant_id =
    is_revoked snap conn.jti conn.sub tenant_id conn.iat
