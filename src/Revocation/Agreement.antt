-- ===== src/Revocation/Agreement.antt =====
-- Snapshots against deltas, and two connections with one token.
use sukko.Common.{
  ◌≡◌, refl, ap, ◌∙◌, ◌≢◌, inl, inr, false, none, List, [], ◌∷◌, arith, All, nat_eq, list_eq,
  eq_iff, eq_refl, Option-cases,
}
use sukko.Common.Int.{ℤ}
use sukko.Common.Map.{lookup, lookup-delete_self}
use sukko.Common.Text.{Text}
use sukko.Revocation.Stream.{
  RevocationEntry, RevocationSnapshot, empty_snapshot, revocation_type_token, add_snapshot_entry,
  add_snapshot, apply_snapshot, add_delta_entry, add_delta, apply_delta, live_jti, live_sub,
  subject_key,
}
use sukko.Revocation.Registry.{
  Connection, ConnectionRegistry, register, unregister, unregister_jti, unregister_subject,
  find_by_jti, handle_revocation,
}

add_entry_agree :
    (now : ℤ) (rev : RevocationEntry) (snap : RevocationSnapshot)
    → rev.removed ≡ false
    → add_snapshot_entry now rev snap ≡ add_delta_entry now rev snap
unfolding add_snapshot_entry add_delta_entry
add_entry_agree now rev snap h = ground (arith, h)

add_agree :
    (now : ℤ) (revs : List RevocationEntry) (snap : RevocationSnapshot)
    → All (λ r. r.removed ≡ false) revs
    → add_snapshot now revs snap ≡ add_delta now revs snap
unfolding add_snapshot add_delta
add_agree now [] snap h = refl
add_agree now (rev ∷ revs) snap (h, hs) =
    add_agree now revs (add_snapshot_entry now rev snap) hs
    ∙ ap (add_delta now revs) (add_entry_agree now rev snap h)

-- A snapshot of revocations, none of them removed, gives the same state as a delta with these
-- revocations that is applied to nothing.
pub snapshot-delta :
    (now : ℤ) (revs : List RevocationEntry)
    → All (λ r. r.removed ≡ false) revs
    → apply_snapshot now revs ≡ apply_delta now revs empty_snapshot
unfolding apply_snapshot apply_delta empty_snapshot live_jti live_sub
snapshot-delta now revs h = add_agree now revs empty_snapshot h

subject_keeps_jti :
    (conn : Connection) (key : Text) (r : ConnectionRegistry)
    → (unregister_subject conn key r).by_jti ≡ r.by_jti
unfolding unregister_subject
subject_keeps_jti conn key r = elim (Option-cases (lookup key r.by_subject)) [
  | inl missing ↦ ground (arith, missing)
  | inr (conns, found) ↦ ground (arith, found)
]

-- The entry of a token is gone when any of its connections is unregistered.
unregister-find :
    (conn : Connection) (tenant_id sub jti : Text) (r : ConnectionRegistry)
    → jti ≢ []
    → find_by_jti jti (unregister conn tenant_id sub jti r) ≡ none
unfolding find_by_jti unregister unregister_jti
unregister-find conn tenant_id sub jti r given =
    let r' = unregister_jti jti r in
    ground (
      arith,
      eq_iff jti [],
      lookup-delete_self jti r.by_jti,
      ap (lookup jti) (subject_keeps_jti conn (subject_key tenant_id sub) r'),
    )

-- Where two connections use one token, the end of the older one takes the newer one out of the
-- index of tokens: a later revocation of the token then closes neither.
pub unregister_older :
    (older newer : Connection) (tenant_id sub jti : Text) (r : ConnectionRegistry)
    (entry : RevocationEntry)
    → jti ≢ []
    → entry.kind ≡ revocation_type_token
    → entry.jti ≡ jti
    → handle_revocation entry (
        unregister older tenant_id sub jti
          (register newer tenant_id sub jti (register older tenant_id sub jti r)))
      ≡ []
unfolding handle_revocation
unregister_older older newer tenant_id sub jti r entry given kind same =
    let before = register newer tenant_id sub jti (register older tenant_id sub jti r) in
    let gone : find_by_jti entry.jti (unregister older tenant_id sub jti before) ≡ none =
      ap (λ j. find_by_jti j (unregister older tenant_id sub jti before)) same
      ∙ unregister-find older tenant_id sub jti before given in
    ground (arith, kind, eq_refl revocation_type_token, gone)
