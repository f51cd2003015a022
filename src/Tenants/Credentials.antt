-- ===== src/Tenants/Credentials.antt =====
-- The operations of ws/internal/provisioning/service.go on the signing keys, the API keys and the
-- quotas of a tenant. `new_id` is the identifier that GenerateAPIKeyID returns.
use sukko.Common.{
  Bool, true, not, ◌||◌, Option, none, some, Result, ok, err, if◌then◌else◌, ◌==◌, nat_eq, list_eq,
}
use sukko.Common.Int.{ℤ, pos, ltb_ℤ}
use sukko.Common.Map.{lookup, insert}
use sukko.Common.Text.{Text, codes}
use sukko.Tenants.{status_active, status_eq, Tenant, TenantKey, validate_key}
use sukko.Tenants.Store.{StoreError, quota_not_found, get_by_slug}
use sukko.Tenants.KeyStore.{
  create_key_row, get_key, revoke_key_row, ApiKey, create_api_key_row, get_api_key_row,
  revoke_api_key_checked, TenantQuota,
}
use sukko.Tenants.Service.{
  invalid_key, tenant_not_active, key_not_owned_by_tenant, invalid_quota, keys_changed,
  api_keys_changed, set_quota, get_tenant, get_quota_row, create_key, get_key_row, create_api_key,
  get_api_key, update_quota_row, revoke_key, revoke_api_key, Env, World, Outcome, stored, call,
  emit_event, audit_log,
}
use sukko.Tenants.Create.{CreateKeyRequest, validated, key_of}
use sukko.Tenants.LifeCycle.{or_old}

-- CreateKey with the tenant that it has read.
unfoldable pub create_key_found : Env → Tenant → CreateKeyRequest → World → Outcome TenantKey
unfolding audit_log emit_event
create_key_found env t req w =
    if not (t.status == status_active)
    then (w, err tenant_not_active)
    else elim (validated invalid_key (validate_key env.is_uuid (key_of t req))) [
      | err e ↦ (w, err e)
      | ok u ↦ elim (stored (env.fails create_key) (create_key_row (key_of t req) w.keys)) [
        | err e ↦ (w, err e)
        | ok keys ↦ (
          emit_event keys_changed
              (audit_log env t.id (codes "create_key") (record w { keys = keys })),
          ok (key_of t req),
        )
      ]
    ]

unfoldable pub create_tenant_key : Env → Text → CreateKeyRequest → World → Outcome TenantKey
unfolding create_key_found
create_tenant_key env slug req w =
    elim (stored (env.fails get_tenant) (get_by_slug slug w.tenants)) [
      | err e ↦ (w, err e)
      | ok t ↦ create_key_found env t req w
    ]

-- RevokeKey with the tenant that it has read.
unfoldable pub revoke_key_found : Env → Tenant → Text → World → Outcome (Unit {0})
unfolding audit_log emit_event
revoke_key_found env t key_id w = elim (stored (env.fails get_key_row) (get_key key_id w.keys)) [
  | err e ↦ (w, err e)
  | ok key ↦
      if not (key.tenant_id == t.id)
      then (w, err key_not_owned_by_tenant)
      else elim (stored (env.fails revoke_key) (revoke_key_row env.now key_id w.keys)) [
        | err e ↦ (w, err e)
        | ok keys ↦ (
          emit_event keys_changed
              (audit_log env t.id (codes "revoke_key") (record w { keys = keys })),
          ok tt,
        )
      ]
]

unfoldable pub revoke_tenant_key : Env → Text → Text → World → Outcome (Unit {0})
unfolding revoke_key_found
revoke_tenant_key env slug key_id w =
    elim (stored (env.fails get_tenant) (get_by_slug slug w.tenants)) [
      | err e ↦ (w, err e)
      | ok t ↦ revoke_key_found env t key_id w
    ]

abbrev pub new_api_key : Env → Tenant → Text → ApiKey
new_api_key env t name = record {
  key_id = env.new_id;
  tenant_id = t.id;
  name = name;
  is_active = true;
  revoked_at = none;
}

-- CreateAPIKey with the tenant that it has read.
unfoldable pub create_api_key_found : Env → Tenant → Text → World → Outcome ApiKey
unfolding audit_log emit_event
create_api_key_found env t name w =
    if not (t.status == status_active)
    then (w, err tenant_not_active)
    else elim (stored (env.fails create_api_key)
        (create_api_key_row (new_api_key env t name) w.api_keys)) [
          | err e ↦ (w, err e)
          | ok keys ↦ (
            emit_event api_keys_changed
                (audit_log env t.id (codes "create_api_key") (record w { api_keys = keys })),
            ok (new_api_key env t name),
          )
        ]

unfoldable pub create_tenant_api_key : Env → Text → Text → World → Outcome ApiKey
unfolding create_api_key_found
create_tenant_api_key env slug name w =
    elim (stored (env.fails get_tenant) (get_by_slug slug w.tenants)) [
      | err e ↦ (w, err e)
      | ok t ↦ create_api_key_found env t name w
    ]

-- RevokeAPIKey with the tenant that it has read.
unfoldable pub revoke_api_key_found : Env → Tenant → Text → World → Outcome (Unit {0})
unfolding audit_log emit_event
revoke_api_key_found env t key_id w =
    elim (stored (env.fails get_api_key) (get_api_key_row key_id w.api_keys)) [
      | err e ↦ (w, err e)
      | ok key ↦
          if not (key.tenant_id == t.id)
          then (w, err key_not_owned_by_tenant)
          else elim (stored (env.fails revoke_api_key)
              (revoke_api_key_checked env.now key_id w.api_keys)) [
                | err e ↦ (w, err e)
                | ok keys ↦ (
                  emit_event api_keys_changed
                      (audit_log env t.id (codes "revoke_api_key") (record w { api_keys = keys })),
                  ok tt,
                )
              ]
    ]

unfoldable pub revoke_tenant_api_key : Env → Text → Text → World → Outcome (Unit {0})
unfolding revoke_api_key_found
revoke_tenant_api_key env slug key_id w =
    elim (stored (env.fails get_tenant) (get_by_slug slug w.tenants)) [
      | err e ↦ (w, err e)
      | ok t ↦ revoke_api_key_found env t key_id w
    ]

pub record UpdateQuotaRequest : Type 0 where
  pub max_topics : Option ℤ
  pub max_partitions : Option ℤ
  pub max_storage_bytes : Option ℤ
  pub producer_byte_rate : Option ℤ
  pub consumer_byte_rate : Option ℤ
  pub max_connections : Option ℤ

unfoldable pub patched_quota : UpdateQuotaRequest → TenantQuota → TenantQuota
patched_quota req q = record {
  tenant_id = q.tenant_id;
  max_topics = or_old req.max_topics q.max_topics;
  max_partitions = or_old req.max_partitions q.max_partitions;
  max_storage_bytes = or_old req.max_storage_bytes q.max_storage_bytes;
  producer_byte_rate = or_old req.producer_byte_rate q.producer_byte_rate;
  consumer_byte_rate = or_old req.consumer_byte_rate q.consumer_byte_rate;
  max_connections = or_old req.max_connections q.max_connections;
}

abbrev is_negative : ℤ → Bool
is_negative n = ltb_ℤ n (pos 0)

unfoldable pub has_negative : TenantQuota → Bool
has_negative q =
    is_negative q.max_topics
    || is_negative q.max_partitions
    || is_negative q.max_storage_bytes
    || is_negative q.producer_byte_rate
    || is_negative q.consumer_byte_rate
    || is_negative q.max_connections

abbrev or_quota_not_found : Option TenantQuota → Result StoreError TenantQuota
or_quota_not_found none = err quota_not_found
or_quota_not_found (some q) = ok q

-- UpdateQuota with the tenant that it has read. The row is there, since it has been read.
unfoldable pub update_quota_found : Env → Tenant → UpdateQuotaRequest → World → Outcome TenantQuota
unfolding audit_log call insert
update_quota_found env t req w =
    elim (stored (env.fails get_quota_row) (or_quota_not_found (lookup t.id w.quotas))) [
      | err e ↦ (w, err e)
      | ok old ↦
          let q = patched_quota req old in
          if has_negative q
          then (w, err invalid_quota)
          else elim (stored (env.fails update_quota_row) (ok q)) [
            | err e ↦ (w, err e)
            | ok new ↦ (
              audit_log env t.id (codes "update_quota") (
                  call (set_quota t.slug new.producer_byte_rate new.consumer_byte_rate)
                    (record w { quotas = insert t.id new w.quotas })),
              ok new,
            )
          ]
    ]

unfoldable pub update_quota : Env → Text → UpdateQuotaRequest → World → Outcome TenantQuota
unfolding update_quota_found
update_quota env slug req w = elim (stored (env.fails get_tenant) (get_by_slug slug w.tenants)) [
  | err e ↦ (w, err e)
  | ok t ↦ update_quota_found env t req w
]
