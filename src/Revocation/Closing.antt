-- ===== src/Revocation/Closing.antt =====
-- Each side alone: a stored revocation is seen by the check, and a registered connection is found by
-- the fan-out.
use sukko.Common.{
  ◌≡◌, refl, ap, ap₂, ◌∙◌, ◌≢◌, ◌⊎◌, inl, inr, Bool, true, false, not, ◌&&◌, some, List, [], ◌∷◌,
  arith, keep, ◌==◌, nat_eq, list_eq, eq_iff, eq_refl, contains, Bool-cases,
}
use sukko.Common.Int.{ℤ, leb_ℤ, ◌<ℤ◌}
use sukko.Common.Map.{lookup, insert, lookup-insert_self}
use sukko.Common.Text.{Text}
use sukko.Revocation.Stream.{
  RevocationEntry, RevocationSnapshot, SubEntry, revocation_type_token, revocation_type_user,
  subject_key, is_revoked, jti_is_revoked, sub_is_revoked, apply_delta, live_jti, live_sub,
}
use sukko.Revocation.Registry.{
  Connection, ConnectionRegistry, conn_eq, add_conn, register, register_jti, or_empty, find_by_sub,
  find_by_jti, handle_revocation, recheck_revocation_after_register,
}

-- The revocation is no removal, has not expired, and is for the connection's token, or for its user
-- and later than its token.
abbrev pub IsFor : RevocationEntry → Connection → Text → ℤ → Type 0
IsFor entry conn tenant_id now =
    (entry.removed ≡ false)
    × (now <ℤ entry.expires_at)
    × (entry.tenant_id ≡ tenant_id)
    × (((entry.kind ≡ revocation_type_token) × (entry.jti ≡ conn.jti) × (conn.jti ≢ []))
        ⊎ ((entry.kind ≡ revocation_type_user)
            × (entry.sub ≡ conn.sub)
            × (conn.sub ≢ [])
            × (conn.iat <ℤ entry.revoked_at)))

pub recheck_stored :
    (entry : RevocationEntry) (conn : Connection) (tenant_id : Text) (now : ℤ)
    (snap : RevocationSnapshot)
    → IsFor entry conn tenant_id now
    → recheck_revocation_after_register (apply_delta now (entry ∷ []) snap) conn tenant_id ≡ true
unfolding recheck_revocation_after_register is_revoked apply_delta jti_is_revoked sub_is_revoked
recheck_stored entry conn tenant_id now snap (there, live, tenant, inl (kind, jti, given)) =
    let jtis = live_jti now snap.jti_revocations in
    let found =
      lookup-insert_self entry.jti
        (record { tenant_id = entry.tenant_id; expires_at = entry.expires_at }) jtis in
    ground (
      arith,
      there,
      live,
      kind,
      eq_refl revocation_type_token,
      eq_iff conn.jti [],
      eq_iff entry.tenant_id tenant_id,
      found,
      ap
          (λ k. lookup k (
            insert entry.jti (record { tenant_id = entry.tenant_id; expires_at = entry.expires_at })
              jtis))
          jti,
    )
recheck_stored entry conn tenant_id now snap (there, live, tenant, inr (kind, sub, given, old)) =
    let subs = live_sub now snap.sub_revocations in
    let value : SubEntry = record {
      revoked_at = entry.revoked_at;
      expires_at = entry.expires_at;
    } in
    let key = subject_key entry.tenant_id entry.sub in
    let found = lookup-insert_self key value subs in
    let same : key ≡ subject_key tenant_id conn.sub = ap₂ subject_key tenant sub in
    ground (
      arith,
      there,
      live,
      kind,
      other_kind,
      eq_refl revocation_type_user,
      eq_iff conn.sub [],
      found,
      ap (λ k. lookup k (insert key value subs)) same,
    )
  where
    other_kind : (revocation_type_user == revocation_type_token) ≡ false
    other_kind = refl

contains-add_conn :
    (conn : Connection) (conns : List Connection) → contains (add_conn conn conns) conn ≡ true
unfolding add_conn contains
contains-add_conn conn conns = ground (arith, eq_refl conn)

contains-keep :
    (test : Connection → Bool) (conns : List Connection) (a : Connection)
    → contains (keep test conns) a ≡ (contains conns a && test a)
unfolding contains
contains-keep test [] a = refl
contains-keep test (c ∷ conns) a = elim (Bool-cases (c == a)) [
  | inl this ↦ ground (arith, this, contains-keep test conns a, ap test ((eq_iff c a).0 this))
  | inr other ↦ ground (arith, other, contains-keep test conns a)
]

find-register_jti :
    (conn : Connection) (tenant_id : Text) (r : ConnectionRegistry)
    → conn.jti ≢ []
    → find_by_jti conn.jti (register conn tenant_id conn.sub conn.jti r) ≡ some conn
unfolding find_by_jti register register_jti
find-register_jti conn tenant_id r given =
    ground (arith, eq_iff conn.jti [], lookup-insert_self conn.jti conn r.by_jti)

find-register_sub :
    (conn : Connection) (tenant_id : Text) (r : ConnectionRegistry)
    → conn.sub ≢ []
    → contains (find_by_sub tenant_id conn.sub (register conn tenant_id conn.sub conn.jti r)) conn
      ≡ true
unfolding find_by_sub register
find-register_sub conn tenant_id r given =
    let r' = register_jti conn conn.jti r in
    let key = subject_key tenant_id conn.sub in
    let conns = or_empty (lookup key r'.by_subject) in
    ground (
      arith,
      eq_iff conn.sub [],
      lookup-insert_self key (add_conn conn conns) r'.by_subject,
      contains-add_conn conn conns,
    )

one_conn : (conn : Connection) → contains (conn ∷ []) conn ≡ true
unfolding contains
one_conn conn = ground (arith, eq_refl conn)

-- A revocation closes the connection once it is registered.
pub closed_registered :
    (entry : RevocationEntry) (conn : Connection) (tenant_id : Text) (now : ℤ)
    (r : ConnectionRegistry)
    → IsFor entry conn tenant_id now
    → contains (handle_revocation entry (register conn tenant_id conn.sub conn.jti r)) conn ≡ true
unfolding handle_revocation
closed_registered entry conn tenant_id now r (there, live, tenant, inl (kind, jti, given)) =
    let r' = register conn tenant_id conn.sub conn.jti r in
    let found : find_by_jti entry.jti r' ≡ some conn =
      ap (λ j. find_by_jti j r') jti ∙ find-register_jti conn tenant_id r given in
    ground (arith, kind, eq_refl revocation_type_token, found, one_conn conn)
closed_registered entry conn tenant_id now r (there, live, tenant, inr (kind, sub, given, old)) =
    let r' = register conn tenant_id conn.sub conn.jti r in
    let same : find_by_sub entry.tenant_id entry.sub r' ≡ find_by_sub tenant_id conn.sub r' =
      ap₂ (λ t x. find_by_sub t x r') tenant sub in
    ground (
      arith,
      kind,
      other_kind,
      eq_refl revocation_type_user,
      same,
      find-register_sub conn tenant_id r given,
      contains-keep (λ c. not (leb_ℤ entry.revoked_at c.iat))
          (find_by_sub entry.tenant_id entry.sub r') conn,
      old,
    )
  where
    other_kind : (revocation_type_user == revocation_type_token) ≡ false
    other_kind = refl
