-- ===== src/Revocation/Store.antt =====
-- ws/internal/provisioning/revocation/store.go: the revocations that provisioning keeps, and that the
-- gateways receive as snapshots. The lock makes each call one step; `now` is the clock's reading. The
-- logs and the loop that calls Prune are not modelled.
use sukko.Common.{
  ℕ, ◌+◌, ◌≡◌, ◌≢◌, ap, ◌∙◌, inl, inr, some, not, ◌&&◌, List, [], ◌∷◌, ◌++◌, Result, ok, err, arith,
  if◌then◌else◌, ◌==◌, nat_eq, list_eq, eq_iff, Elem, Bool-cases,
}
use sukko.Common.Int.{ℤ, leb_ℤ, ltb_ℤ, ◌<ℤ◌, ◌≤ℤ◌}
use sukko.Common.Map.{lookup, insert, lookup-insert, lookup-insert_self}
use sukko.Common.Text.{Text, codes}
use sukko.Revocation.Stream.{revocation_type_token, revocation_type_user}

pub record Entry : Type 0 where
  pub tenant_id : Text
  pub kind : Text
  pub sub : Text
  pub jti : Text
  pub revoked_at : ℤ
  pub expires_at : ℤ

pub data StoreError : Type 0 where
  missing_tenant_id invalid_type missing_sub missing_jti : StoreError

-- Entry.key.
unfoldable pub entry_key : Entry → Text
entry_key e =
    if e.kind == revocation_type_token
    then codes "jti:" ++ e.jti
    else codes "sub:" ++ (e.tenant_id ++ (b':' ∷ e.sub))

abbrev pub Store : Type 0
Store = List (Text × Entry)

unfoldable pub revoke : Entry → Store → Store × Result StoreError (Unit {0})
unfolding insert entry_key
revoke entry s =
    if entry.tenant_id == []
    then (s, err missing_tenant_id)
    else if not (entry.kind == revocation_type_user) && not (entry.kind == revocation_type_token)
    then (s, err invalid_type)
    else if entry.kind == revocation_type_user && entry.sub == []
    then (s, err missing_sub)
    else if entry.kind == revocation_type_token && entry.jti == []
    then (s, err missing_jti)
    else (insert (entry_key entry) entry s, ok tt)

unfoldable pub store_snapshot : ℤ → Store → List Entry
store_snapshot now [] = []
store_snapshot now ((key, e) ∷ s) =
    let rest = store_snapshot now s in if ltb_ℤ now e.expires_at then e ∷ rest else rest

-- The entries that stay, and the number of those that are pruned.
unfoldable pub prune : ℤ → Store → Store × ℕ
prune now [] = ([], 0)
prune now ((key, e) ∷ s) =
    let (kept, pruned) = prune now s in
    if leb_ℤ e.expires_at now then (kept, pruned + 1) else ((key, e) ∷ kept, pruned)

-- What happens to a store after a revocation.
pub data StoreOperation : Type 0 where
  revoking : Entry → StoreOperation
  pruning : ℤ → StoreOperation

abbrev pub apply_store : StoreOperation → Store → Store
apply_store (revoking entry) s = (revoke entry s).0
apply_store (pruning now) s = (prune now s).0

abbrev pub apply_store_all : List StoreOperation → Store → Store
apply_store_all [] s = s
apply_store_all (o ∷ ops) s = apply_store_all ops (apply_store o s)

-- Operations up to a time, none of which revokes under the given key.
abbrev pub Spares : Text → ℤ → List StoreOperation → Type 0
Spares key later [] = Unit {0}
Spares key later (revoking entry ∷ ops) = (entry_key entry ≢ key) × Spares key later ops
Spares key later (pruning now ∷ ops) = (now ≤ℤ later) × Spares key later ops

revoke-lookup :
    (entry : Entry) (s : Store)
    → (revoke entry s).1 ≡ ok tt
    → lookup (entry_key entry) (revoke entry s).0 ≡ some entry
unfolding revoke
revoke-lookup entry s h = ground (arith, h, lookup-insert_self (entry_key entry) entry s)

revoke_other :
    (entry : Entry) (key : Text) (s : Store)
    → entry_key entry ≢ key
    → lookup key (revoke entry s).0 ≡ lookup key s
unfolding revoke
revoke_other entry key s h =
    ground (arith, h, eq_iff (entry_key entry) key, lookup-insert (entry_key entry) key entry s)

prune-lookup :
    (now : ℤ) (key : Text) (entry : Entry) (s : Store)
    → now <ℤ entry.expires_at
    → lookup key s ≡ some entry
    → lookup key (prune now s).0 ≡ some entry
unfolding prune lookup
prune-lookup now key entry [] live h = h
prune-lookup now key entry ((k, e) ∷ s) live h = elim (Bool-cases (k == key)) [
  | inl same ↦
      let this : e ≡ entry = ground (arith, same, h) in
      ground (arith, same, h, live, ap (λ x. x.expires_at) this)
  | inr other ↦ ground (arith, other, h, prune-lookup now key entry s live)
]

lookup-snapshot :
    (now : ℤ) (key : Text) (entry : Entry) (s : Store)
    → now <ℤ entry.expires_at
    → lookup key s ≡ some entry
    → Elem entry (store_snapshot now s)
unfolding store_snapshot lookup
lookup-snapshot now key entry [] live h = absurd (ground (arith, h))
lookup-snapshot now key entry ((k, e) ∷ s) live h = elim (Bool-cases (k == key)) [
  | inl same ↦
      let this : e ≡ entry = ground (arith, same, h) in
      ground (arith, live, this, ap (λ x. x.expires_at) this)
  | inr other ↦
      let found = lookup-snapshot now key entry s live (ground (arith, other, h)) in
      ground (arith, found)
]

kept_lookup :
    (entry : Entry) (later : ℤ) (ops : List StoreOperation) (s : Store)
    → later <ℤ entry.expires_at
    → Spares (entry_key entry) later ops
    → lookup (entry_key entry) s ≡ some entry
    → lookup (entry_key entry) (apply_store_all ops s) ≡ some entry
kept_lookup entry later [] s live spared h = h
kept_lookup entry later (revoking other ∷ ops) s live (apart, spared) h =
    kept_lookup entry later ops (revoke other s).0 live spared
      (revoke_other other (entry_key entry) s apart ∙ h)
kept_lookup entry later (pruning now ∷ ops) s live (order, spared) h =
    kept_lookup entry later ops (prune now s).0 live spared
      (prune-lookup now (entry_key entry) entry s (omega (arith, order, live)) h)

-- A revocation that was accepted is in every snapshot that is taken before it expires, whatever is
-- revoked under other keys and however often the store is pruned in between.
pub revoke-snapshot :
    (entry : Entry) (s : Store) (ops : List StoreOperation) (later : ℤ)
    → (revoke entry s).1 ≡ ok tt
    → Spares (entry_key entry) later ops
    → later <ℤ entry.expires_at
    → Elem entry (store_snapshot later (apply_store_all ops (revoke entry s).0))
revoke-snapshot entry s ops later accepted spared live =
    lookup-snapshot later (entry_key entry) entry (apply_store_all ops (revoke entry s).0) live
      (kept_lookup entry later ops (revoke entry s).0 live spared (revoke-lookup entry s accepted))
