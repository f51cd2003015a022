-- ===== src/Revocation/Stream.antt =====
-- ws/internal/shared/provapi/revocation_stream.go: the snapshot of the revocations, and the check of a
-- token against it. The constructor stores an empty snapshot, so that there always is one. Gauges,
-- logs and the gRPC stream are not modelled.
use sukko.Common.{
  Bool, true, false, not, ◌&&◌, Option, none, some, List, [], ◌∷◌, ◌++◌, if◌then◌else◌, ◌==◌,
  nat_eq, list_eq,
}
use sukko.Common.Int.{ℤ, ltb_ℤ, leb_ℤ}
use sukko.Common.Map.{lookup, insert, delete}
use sukko.Common.Text.{Text, codes}

abbrev pub revocation_type_token : Text
revocation_type_token = codes "token"

abbrev pub revocation_type_user : Text
revocation_type_user = codes "user"

pub record RevocationEntry : Type 0 where
  pub tenant_id : Text
  pub kind : Text
  pub sub : Text
  pub jti : Text
  pub revoked_at : ℤ
  pub expires_at : ℤ
  pub removed : Bool

pub record JtiEntry : Type 0 where
  pub tenant_id : Text
  pub expires_at : ℤ

pub record SubEntry : Type 0 where
  pub revoked_at : ℤ
  pub expires_at : ℤ

pub record RevocationSnapshot : Type 0 where
  pub jti_revocations : List (Text × JtiEntry)
  pub sub_revocations : List (Text × SubEntry)

unfoldable pub empty_snapshot : RevocationSnapshot
empty_snapshot = record { jti_revocations = []; sub_revocations = [] }

-- tenantID + ":" + sub.
unfoldable pub subject_key : Text → Text → Text
subject_key tenant_id sub = tenant_id ++ (b':' ∷ sub)

unfoldable pub jti_is_revoked : Option JtiEntry → Text → Bool
jti_is_revoked none tenant_id = false
jti_is_revoked (some entry) tenant_id = entry.tenant_id == tenant_id

unfoldable pub sub_is_revoked : Option SubEntry → ℤ → Bool
sub_is_revoked none iat = false
sub_is_revoked (some entry) iat = ltb_ℤ iat entry.revoked_at

unfoldable pub is_revoked : RevocationSnapshot → Text → Text → Text → ℤ → Bool
unfolding lookup subject_key jti_is_revoked sub_is_revoked
is_revoked snap jti sub tenant_id iat =
    if not (jti == []) && jti_is_revoked (lookup jti snap.jti_revocations) tenant_id
    then true
    else if not (sub == [])
        && sub_is_revoked (lookup (subject_key tenant_id sub) snap.sub_revocations) iat
    then true
    else false

abbrev pub put_jti : RevocationEntry → RevocationSnapshot → RevocationSnapshot
put_jti rev snap = record snap {
  jti_revocations =
      insert rev.jti (record { tenant_id = rev.tenant_id; expires_at = rev.expires_at })
        snap.jti_revocations;
}

abbrev pub put_sub : RevocationEntry → RevocationSnapshot → RevocationSnapshot
put_sub rev snap = record snap {
  sub_revocations =
      insert (subject_key rev.tenant_id rev.sub)
        (record { revoked_at = rev.revoked_at; expires_at = rev.expires_at }) snap.sub_revocations;
}

-- One entry of a snapshot, at the time `now`.
unfoldable pub add_snapshot_entry : ℤ → RevocationEntry → RevocationSnapshot → RevocationSnapshot
unfolding insert subject_key
add_snapshot_entry now rev snap =
    if leb_ℤ rev.expires_at now
    then snap
    else if rev.kind == revocation_type_token
    then put_jti rev snap
    else if rev.kind == revocation_type_user
    then put_sub rev snap
    else snap

unfoldable pub add_snapshot : ℤ → List RevocationEntry → RevocationSnapshot → RevocationSnapshot
unfolding add_snapshot_entry
add_snapshot now [] snap = snap
add_snapshot now (rev ∷ revs) snap = add_snapshot now revs (add_snapshot_entry now rev snap)

unfoldable pub apply_snapshot : ℤ → List RevocationEntry → RevocationSnapshot
unfolding add_snapshot empty_snapshot
apply_snapshot now revs = add_snapshot now revs empty_snapshot

-- The copies of the maps, without what has expired.
unfoldable pub live_jti : ℤ → List (Text × JtiEntry) → List (Text × JtiEntry)
live_jti now [] = []
live_jti now ((k, v) ∷ old) =
    let kept = live_jti now old in if ltb_ℤ now v.expires_at then (k, v) ∷ kept else kept

unfoldable pub live_sub : ℤ → List (Text × SubEntry) → List (Text × SubEntry)
live_sub now [] = []
live_sub now ((k, v) ∷ old) =
    let kept = live_sub now old in if ltb_ℤ now v.expires_at then (k, v) ∷ kept else kept

-- One entry of a delta.
unfoldable pub add_delta_entry : ℤ → RevocationEntry → RevocationSnapshot → RevocationSnapshot
unfolding insert delete subject_key
add_delta_entry now rev snap =
    if rev.kind == revocation_type_token
    then (if rev.removed
        then record snap { jti_revocations = delete rev.jti snap.jti_revocations }
        else if ltb_ℤ now rev.expires_at
        then put_jti rev snap
        else snap)
    else if rev.kind == revocation_type_user
    then (if rev.removed
        then record snap {
          sub_revocations = delete (subject_key rev.tenant_id rev.sub) snap.sub_revocations;
        }
        else if ltb_ℤ now rev.expires_at
        then put_sub rev snap
        else snap)
    else snap

unfoldable pub add_delta : ℤ → List RevocationEntry → RevocationSnapshot → RevocationSnapshot
unfolding add_delta_entry
add_delta now [] snap = snap
add_delta now (rev ∷ revs) snap = add_delta now revs (add_delta_entry now rev snap)

unfoldable pub apply_delta : ℤ → List RevocationEntry → RevocationSnapshot → RevocationSnapshot
unfolding add_delta live_jti live_sub
apply_delta now revs old = add_delta now revs (record {
  jti_revocations = live_jti now old.jti_revocations;
  sub_revocations = live_sub now old.sub_revocations;
})
