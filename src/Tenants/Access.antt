-- ===== src/Tenants/Access.antt =====
-- The keys that are left when a tenant's keys are revoked.
use sukko.Common.{
  ℕ, ◌≤◌, ◌≡◌, refl, sym, ap, inl, inr, zero, suc, Bool, true, false, not, ◌&&◌, ◌||◌, List, [],
  ◌∷◌, arith, ◌==◌, nat_eq, list_eq, eq_iff, eq_refl, Bool-cases, any, all, keep, take, length,
  Elem,
}
use sukko.Common.Text.{Text}
use sukko.Tenants.{TenantKey}
use sukko.Tenants.KeyStore.{
  revoke_keys_where, revoke_all_for_tenant, get_active_keys, ApiKey, list_by_tenant,
  revoke_api_key_row, get_active_api_keys,
}
use sukko.Tenants.Service.{revoke_api_key, Env}
use sukko.Tenants.Deletion.{revoke_listed}

abbrev pub of_tenant : Text → TenantKey → Bool
of_tenant id k = k.tenant_id == id

abbrev pub api_key_of : Text → ApiKey → Bool
api_key_of id k = k.tenant_id == id

-- No signing key of the tenant is handed out after all of them have been revoked.
pub revoke_all-none_active :
    (now later : ℕ) (id : Text) (keys : List TenantKey)
    → any (of_tenant id) (get_active_keys later (revoke_all_for_tenant now id keys)) ≡ false
unfolding get_active_keys revoke_all_for_tenant revoke_keys_where
revoke_all-none_active now later id [] = refl
revoke_all-none_active now later id (k ∷ keys) =
    ground (arith, revoke_all-none_active now later id keys)

abbrev names : ApiKey → ApiKey → Bool
names k listed = listed.key_id == k.key_id && listed.is_active

-- An active key of the tenant is still to be revoked by the rest of the loop.
abbrev pending : Text → List ApiKey → ApiKey → Bool
pending id listed k = not (k.tenant_id == id && k.is_active) || any (names k) listed

pending_step :
    (now : ℕ) (id : Text) (l : ApiKey) (listed rows : List ApiKey)
    → all (pending id (l ∷ listed)) rows ≡ true
    → l.is_active ≡ true
    → all (pending id listed) (revoke_api_key_row now l.key_id rows) ≡ true
unfolding revoke_api_key_row
pending_step now id l listed [] h a = refl
pending_step now id l listed (k ∷ rows) h a = ground (
  arith,
  h,
  a,
  eq_iff l.key_id k.key_id,
  eq_iff k.key_id l.key_id,
  pending_step now id l listed rows,
)

pending_skip :
    (id : Text) (l : ApiKey) (listed rows : List ApiKey)
    → all (pending id (l ∷ listed)) rows ≡ true
    → l.is_active ≡ false
    → all (pending id listed) rows ≡ true
pending_skip id l listed [] h a = refl
pending_skip id l listed (k ∷ rows) h a = ground (arith, h, a, pending_skip id l listed rows)

pending_none :
    (id : Text) (rows : List ApiKey)
    → all (pending id []) rows ≡ true
    → any (api_key_of id) (get_active_api_keys rows) ≡ false
unfolding get_active_api_keys
pending_none id [] h = refl
pending_none id (k ∷ rows) h = ground (arith, h, pending_none id rows)

revoke_listed-none_active :
    (env : Env) (id : Text) (listed rows : List ApiKey)
    → env.fails revoke_api_key ≡ false
    → all (pending id listed) rows ≡ true
    → any (api_key_of id) (get_active_api_keys (revoke_listed env listed rows).0) ≡ false
unfolding revoke_listed
revoke_listed-none_active env id [] rows works h = pending_none id rows h
revoke_listed-none_active env id (l ∷ listed) rows works h = elim (Bool-cases l.is_active) [
  | inl active ↦
      let revoked = revoke_api_key_row env.now l.key_id rows in
      let rest =
        revoke_listed-none_active env id listed revoked works
          (pending_step env.now id l listed rows h active) in
      ground (arith, active, works, rest)
  | inr idle ↦
      let rest =
        revoke_listed-none_active env id listed rows works (pending_skip id l listed rows h idle) in
      ground (arith, idle, rest)
]

any-keep :
    (id : Text) (k : ApiKey) (rows : List ApiKey)
    → Elem k rows
    → k.tenant_id == id ≡ true
    → k.is_active ≡ true
    → any (names k) (keep (api_key_of id) rows) ≡ true
any-keep id k [] m t a = absurd m
any-keep id k (r ∷ rows) (inl e) t a = ground (
  arith,
  sym e,
  ap (λ x. x.tenant_id) e,
  ap (λ x. x.key_id) e,
  ap (λ x. x.is_active) e,
  t,
  a,
  eq_refl k.key_id,
)
any-keep id k (r ∷ rows) (inr m) t a = ground (arith, any-keep id k rows m t a)

all-pending :
    (id : Text) (whole rows : List ApiKey)
    → ((k : ApiKey) → Elem k rows → Elem k whole)
    → all (pending id (keep (api_key_of id) whole)) rows ≡ true
all-pending id whole [] sub = refl
all-pending id whole (k ∷ rows) sub = ground (
  arith,
  any-keep id k whole (sub k (inl refl)),
  all-pending id whole rows (λ r m. sub r (inr m)),
)

take_all : {A : Type 0} (n : ℕ) (xs : List A) → length xs ≤ n → take n xs ≡ xs
take_all zero [] h = refl
take_all zero (x ∷ xs) h = absurd (omega arith)
take_all (suc n) [] h = refl
take_all (suc n) (x ∷ xs) h = ap (◌∷◌ x) (take_all n xs (omega arith))

-- No API key of the tenant is handed out after the loop over its keys, if the loop sees all of
-- them.
pub revoke_all_api-none_active :
    (env : Env) (id : Text) (limit : ℕ) (rows : List ApiKey)
    → env.fails revoke_api_key ≡ false
    → length (keep (api_key_of id) rows) ≤ limit
    → let listed = list_by_tenant id limit 0 rows in
      any (api_key_of id) (get_active_api_keys (revoke_listed env listed rows).0) ≡ false
unfolding list_by_tenant
revoke_all_api-none_active env id limit rows works few =
    rw (take_all limit (keep (api_key_of id) rows) few) (
      revoke_listed-none_active env id (keep (api_key_of id) rows) rows works
        (all-pending id rows rows (λ k m. m)))
