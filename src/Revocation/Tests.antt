-- ===== src/Revocation/Tests.antt =====
-- Concrete revocations.
use sukko.Common.{
  ok, err, Elem, ◌≡◌, ◌≢◌, List, refl, inr, true, false, [], ◌∷◌, All, contains, arith, nat_eq,
  list_eq,
}
use sukko.Common.Int.{pos}
use sukko.Common.Text.{Text, codes}
use sukko.Revocation.Stream.{
  RevocationEntry, empty_snapshot, revocation_type_token, revocation_type_user, apply_snapshot,
  is_revoked,
}
use sukko.Revocation.Registry.{
  Connection, ConnectionRegistry, conn_eq, register, unregister, handle_revocation,
}
use sukko.Revocation.Store.{
  Entry, missing_jti, entry_key, revoke, store_snapshot, StoreOperation, revoking, pruning,
  apply_store_all, revoke-snapshot,
}
use sukko.Revocation.Race.{
  State, register_step, recheck_step, store_step, fan_out_step, perform_all, interleavings,
  race_closed,
}
use sukko.Revocation.Agreement.{unregister_older}

abbrev acme : Text
acme = codes "acme"

abbrev first : Connection
first = record { id = 1; sub = codes "alice"; jti = codes "t1"; iat = pos 10 }

abbrev second : Connection
second = record first { id = 2 }

abbrev token_revoked : RevocationEntry
token_revoked = record {
  tenant_id = acme;
  kind = revocation_type_token;
  sub = [];
  jti = codes "t1";
  revoked_at = pos 20;
  expires_at = pos 100;
  removed = false;
}

abbrev user_revoked : RevocationEntry
user_revoked = record token_revoked { kind = revocation_type_user; sub = codes "alice"; jti = [] }

abbrev no_connections : ConnectionRegistry
no_connections = record { by_subject = []; by_jti = [] }

older_token_revoked :
    is_revoked
      (apply_snapshot (pos 30) (user_revoked ∷ []))
      (codes "t9")
      (codes "alice")
      acme
      (pos 10)
    ≡ true
unfolding is_revoked apply_snapshot
older_token_revoked = refl

newer_token_kept :
    is_revoked
      (apply_snapshot (pos 30) (user_revoked ∷ []))
      (codes "t9")
      (codes "alice")
      acme
      (pos 25)
    ≡ false
unfolding is_revoked apply_snapshot
newer_token_kept = refl

unregister_older_example :
    handle_revocation token_revoked (
      unregister first acme (codes "alice") (codes "t1") (
        register second acme
          (codes "alice")
          (codes "t1")
          (register first acme (codes "alice") (codes "t1") no_connections)))
    ≡ []
unregister_older_example =
    unregister_older first second acme (codes "alice") (codes "t1") no_connections token_revoked
      (ground arith) refl refl

abbrev before : State
before = record { snapshot = empty_snapshot; registry = no_connections; closed = [] }

race_closed_example :
    All
      (λ steps.
        contains (perform_all user_revoked first acme (pos 30) steps before).closed first ≡ true)
      (interleavings (register_step ∷ recheck_step ∷ []) (store_step ∷ fan_out_step ∷ []))
race_closed_example =
    race_closed user_revoked first acme (pos 30) before
      (refl, omega arith, refl, inr (refl, refl, ground arith, omega arith))

abbrev stored : Entry
stored = record {
  tenant_id = acme;
  kind = revocation_type_token;
  sub = [];
  jti = codes "t1";
  revoked_at = pos 20;
  expires_at = pos 100;
}

nameless_refused : (revoke (record stored { jti = [] }) []).1 ≡ err missing_jti
unfolding revoke
nameless_refused = refl

accepted : (revoke stored []).1 ≡ ok tt
unfolding revoke
accepted = refl

abbrev other_token : Entry
other_token = record stored { jti = codes "t2" }

abbrev operations : List StoreOperation
operations = pruning (pos 50) ∷ revoking other_token ∷ pruning (pos 55) ∷ []

apart : entry_key other_token ≢ entry_key stored
unfolding entry_key
apart = ground arith

revoke-snapshot_example :
    Elem stored (store_snapshot (pos 60) (apply_store_all operations (revoke stored []).0))
revoke-snapshot_example =
    revoke-snapshot stored [] operations (pos 60) accepted (omega arith, (apart, (omega arith, tt)))
      (omega arith)

-- A revocation of another tenant that names the same token, and expires earlier, takes the place of
-- the first one.
taken_over :
    store_snapshot
      (pos 60)
      (revoke
        (record stored { tenant_id = codes "other"; expires_at = pos 30 })
        (revoke stored []).0).0
    ≡ []
unfolding store_snapshot revoke
taken_over = refl
