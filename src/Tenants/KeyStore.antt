-- ===== src/Tenants/KeyStore.antt =====
-- ws/internal/provisioning/repository: the statements of key.go, api_key.go and quota.go. The rows of
-- the API keys stand in the order of their creation, the newest first.
use sukko.Common.{
  ℕ, Bool, true, false, ◌&&◌, Option, none, some, List, [], ◌∷◌, Result, ok, err, if◌then◌else◌,
  ltb, ◌==◌, nat_eq, list_eq, any, keep, take, drop,
}
use sukko.Common.Int.{ℤ}
use sukko.Common.Text.{Text}
use sukko.Tenants.{TenantKey}
use sukko.Tenants.Store.{StoreError, key_already_exists, key_not_found, is_none}

-- Create of key.go.
unfoldable pub create_key_row : TenantKey → List TenantKey → Result StoreError (List TenantKey)
create_key_row key keys =
    if any (λ k. k.key_id == key.key_id) keys
    then err key_already_exists
    else ok (record key { is_active = true } ∷ keys)

unfoldable pub get_key : Text → List TenantKey → Result StoreError TenantKey
get_key id [] = err key_not_found
get_key id (k ∷ keys) = let rest = get_key id keys in if k.key_id == id then ok k else rest

abbrev pub revoked_key : ℕ → TenantKey → TenantKey
revoked_key now k = record k { is_active = false; revoked_at = some now }

-- UPDATE tenant_keys ... WHERE.
unfoldable pub revoke_keys_where : (TenantKey → Bool) → ℕ → List TenantKey → List TenantKey
revoke_keys_where test now [] = []
revoke_keys_where test now (k ∷ keys) =
    (if test k then revoked_key now k else k) ∷ revoke_keys_where test now keys

-- Revoke of key.go.
unfoldable pub revoke_key_row : ℕ → Text → List TenantKey → Result StoreError (List TenantKey)
unfolding revoke_keys_where
revoke_key_row now id keys =
    if any (λ k. k.key_id == id && k.is_active) keys
    then ok (revoke_keys_where (λ k. k.key_id == id && k.is_active) now keys)
    else err key_not_found

unfoldable pub revoke_all_for_tenant : ℕ → Text → List TenantKey → List TenantKey
unfolding revoke_keys_where
revoke_all_for_tenant now tenant_id keys =
    revoke_keys_where (λ k. k.tenant_id == tenant_id && k.is_active) now keys

abbrev pub expires_after : ℕ → Option ℕ → Bool
expires_after now none = true
expires_after now (some at) = ltb now at

abbrev pub is_usable_key : ℕ → TenantKey → Bool
is_usable_key now k = k.is_active && is_none k.revoked_at && expires_after now k.expires_at

unfoldable pub get_active_keys : ℕ → List TenantKey → List TenantKey
get_active_keys now keys = keep (is_usable_key now) keys

pub record ApiKey : Type 0 where
  pub key_id : Text
  pub tenant_id : Text
  pub name : Text
  pub is_active : Bool
  pub revoked_at : Option ℕ

-- ListByTenant of api_key.go.
unfoldable pub list_by_tenant : Text → ℕ → ℕ → List ApiKey → List ApiKey
list_by_tenant tenant_id limit offset keys =
    take limit (drop offset (keep (λ k. k.tenant_id == tenant_id) keys))

abbrev pub revoked_api_key : ℕ → Text → ApiKey → ApiKey
revoked_api_key now id k =
    if k.key_id == id && k.is_active
    then record k { is_active = false; revoked_at = some now }
    else k

-- Revoke of api_key.go, whose statement affects no row for a key that is not active.
unfoldable pub revoke_api_key_row : ℕ → Text → List ApiKey → List ApiKey
revoke_api_key_row now id [] = []
revoke_api_key_row now id (k ∷ keys) = revoked_api_key now id k ∷ revoke_api_key_row now id keys

abbrev pub is_usable_api_key : ApiKey → Bool
is_usable_api_key k = k.is_active && is_none k.revoked_at

unfoldable pub get_active_api_keys : List ApiKey → List ApiKey
get_active_api_keys keys = keep is_usable_api_key keys

pub record TenantQuota : Type 0 where
  pub tenant_id : Text
  pub max_topics : ℤ
  pub max_partitions : ℤ
  pub max_storage_bytes : ℤ
  pub producer_byte_rate : ℤ
  pub consumer_byte_rate : ℤ
  pub max_connections : ℤ

unfoldable pub create_api_key_row : ApiKey → List ApiKey → Result StoreError (List ApiKey)
create_api_key_row key keys =
    if any (λ k. k.key_id == key.key_id) keys
    then err key_already_exists
    else ok (record key { is_active = true } ∷ keys)

unfoldable pub get_api_key_row : Text → List ApiKey → Result StoreError ApiKey
get_api_key_row id [] = err key_not_found
get_api_key_row id (k ∷ keys) =
    let rest = get_api_key_row id keys in if k.key_id == id then ok k else rest

-- Revoke of api_key.go, with its error.
unfoldable pub revoke_api_key_checked : ℕ → Text → List ApiKey → Result StoreError (List ApiKey)
unfolding revoke_api_key_row
revoke_api_key_checked now id keys =
    if any (λ k. k.key_id == id && k.is_active) keys
    then ok (revoke_api_key_row now id keys)
    else err key_not_found
