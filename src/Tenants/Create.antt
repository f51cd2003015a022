-- ===== src/Tenants/Create.antt =====
-- CreateTenant of ws/internal/provisioning/service.go: the checks, the saga over the two topics of the
-- tenant's infrastructure and its row, and what follows the row. Each phase is a function.
use sukko.Common.{
  ℕ, ◌*◌, Bool, true, false, Option, none, some, List, [], Result, ok, err, if◌then◌else◌, ◌==◌,
  nat_eq, list_eq, ◌>>◌,
}
use sukko.Common.Int.{pos}
use sukko.Common.Map.{insert}
use sukko.Common.Text.{Text, codes}
use sukko.License.Limits.{Checked, check_tenants}
use sukko.Tenants.{
  status_active, ConsumerType, consumer_shared, Tenant, TenantKey, Validated, Algorithm,
  validate_tenant, validate_key_input, validate_key, is_reserved_slug, ValidationError,
}
use sukko.Tenants.Store.{create_row, count}
use sukko.Tenants.KeyStore.{TenantQuota, create_key_row}
use sukko.Tenants.Service.{
  ServiceConfig, ServiceError, invalid_tenant, invalid_key, slug_reserved, edition_limit,
  topic_creation_failed, topics_changed, tenant_config_changed, delete_topic, topic_created,
  topic_already_exists, topic_refused, count_tenants, create_tenant_row, create_quota_row,
  create_key, Env, World, Outcome, stored, call, emit_event, audit_log, inc_active_tenants,
  dead_letter_spec, default_spec, topic_name, create_infra_topic,
}

pub record CreateKeyRequest : Type 0 where
  pub key_id : Text
  pub algorithm : Algorithm
  pub public_key : Text
  pub expires_at : Option ℕ

pub record CreateTenantRequest : Type 0 where
  pub slug : Text
  pub name : Text
  pub consumer_type : ConsumerType
  pub metadata : Text
  pub public_key : Option CreateKeyRequest

unfoldable pub tenant_of : Env → CreateTenantRequest → Tenant
tenant_of env req = record {
  id = env.new_id;
  slug = req.slug;
  name = req.name;
  status = status_active;
  consumer_type = if req.consumer_type == [] then consumer_shared else req.consumer_type;
  metadata = req.metadata;
  previous_slug = [];
  slug_rename_state = none;
  slug_renamed_at = none;
  suspended_at = none;
  deprovision_at = none;
  deleted_at = none;
}

abbrev pub validated : (ValidationError → ServiceError) → Validated → Result ServiceError (Unit {0})
validated wrap (ok u) = ok u
validated wrap (err e) = err (wrap e)

abbrev check_public_key : Option CreateKeyRequest → Validated
check_public_key none = ok tt
check_public_key (some k) = validate_key_input k.key_id k.algorithm k.public_key

abbrev within_limit : Checked → Result ServiceError (Unit {0})
within_limit (ok u) = ok u
within_limit (err e) = err edition_limit

abbrev pub check_edition : ServiceConfig → Env → List Tenant → Result ServiceError (Unit {0})
check_edition config env rows = elim config.limits [
  | none ↦ ok tt
  | some limits ↦ elim (stored (env.fails count_tenants) (ok (count rows))) [
    | err e ↦ err e
    | ok n ↦ within_limit (check_tenants limits (pos n))
  ]
]

-- Everything before the first side effect.
unfoldable pub admit_tenant :
    ServiceConfig → Env → CreateTenantRequest → List Tenant → Result ServiceError (Unit {0})
unfolding tenant_of
admit_tenant config env req rows =
    validated invalid_tenant (validate_tenant (tenant_of env req))
    >> validated invalid_key (check_public_key req.public_key)
    >> (if is_reserved_slug req.slug then err slug_reserved else ok tt)
    >> check_edition config env rows

-- Deletes a topic that this saga has created.
abbrev pub undo_topic : Bool → Text → World → World
undo_topic true name w = call (delete_topic name) w
undo_topic false name w = w

-- The two topics, the dead-letter topic first: whether this call has created each.
unfoldable pub provision_topics : ServiceConfig → Env → Text → World → Outcome (Bool × Bool)
unfolding create_infra_topic call
provision_topics config env slug w =
    let dead_letter = dead_letter_spec config in
    let default = default_spec config in
    let dead_letter_name = topic_name config slug dead_letter.suffix in
    let default_name = topic_name config slug default.suffix in
    let w1 = create_infra_topic config slug dead_letter w in
    let w2 = create_infra_topic config slug default w1 in
    elim (env.topic_creation dead_letter_name) [
      | topic_refused ↦ (w1, err topic_creation_failed)
      | topic_created ↦ elim (env.topic_creation default_name) [
        | topic_refused ↦ (undo_topic true dead_letter_name w2, err topic_creation_failed)
        | topic_created ↦ (w2, ok (true, true))
        | topic_already_exists ↦ (w2, ok (true, false))
      ]
      | topic_already_exists ↦ elim (env.topic_creation default_name) [
        | topic_refused ↦ (undo_topic false dead_letter_name w2, err topic_creation_failed)
        | topic_created ↦ (w2, ok (false, true))
        | topic_already_exists ↦ (w2, ok (false, false))
      ]
    ]

-- The row, and the topics of the saga deleted if it is refused, the last one first.
unfoldable pub insert_tenant :
    ServiceConfig → Env → Tenant → Bool × Bool → World → Outcome (Unit {0})
unfolding call inc_active_tenants
insert_tenant config env t (dead_letter_here, default_here) w =
    elim (stored (env.fails create_tenant_row) (create_row t w.tenants)) [
      | err e ↦ (
        undo_topic dead_letter_here (topic_name config t.slug (dead_letter_spec config).suffix)
            (undo_topic default_here (topic_name config t.slug (default_spec config).suffix) w),
        err e,
      )
      | ok rows ↦ (inc_active_tenants (record w { tenants = rows }), ok tt)
    ]

unfoldable pub default_quota : ServiceConfig → Tenant → TenantQuota
default_quota config t = record {
  tenant_id = t.id;
  max_topics = pos config.max_topics_per_tenant;
  max_partitions = pos (config.max_topics_per_tenant * config.default_partitions);
  max_storage_bytes = pos config.max_storage_bytes;
  producer_byte_rate = pos config.default_producer_rate;
  consumer_byte_rate = pos config.default_consumer_rate;
  max_connections = pos 0;
}

-- A quota that is not written does not fail the call.
unfoldable pub create_quota : ServiceConfig → Env → Tenant → World → World
unfolding insert
create_quota config env t w =
    if env.fails create_quota_row
    then w
    else record w { quotas = insert t.id (default_quota config t) w.quotas }

abbrev pub key_of : Tenant → CreateKeyRequest → TenantKey
key_of t k = record {
  key_id = k.key_id;
  tenant_id = t.id;
  algorithm = k.algorithm;
  public_key = k.public_key;
  is_active = true;
  expires_at = k.expires_at;
  revoked_at = none;
}

-- The initial key, if the request has one.
unfoldable pub create_initial_key :
    Env → Tenant → Option CreateKeyRequest → World → Outcome (Unit {0})
create_initial_key env t none w = (w, ok tt)
create_initial_key env t (some k) w =
    elim (validated invalid_key (validate_key env.is_uuid (key_of t k))) [
      | err e ↦ (w, err e)
      | ok u ↦ elim (stored (env.fails create_key) (create_key_row (key_of t k) w.keys)) [
        | err e ↦ (w, err e)
        | ok keys ↦ (record w { keys = keys }, ok tt)
      ]
    ]

unfoldable pub announce_tenant : Env → Text → Text → World → World
unfolding audit_log emit_event
announce_tenant env id action w =
    emit_event tenant_config_changed (emit_event topics_changed (audit_log env id action w))

-- What follows the row: the tenant stays when its key is refused.
unfoldable pub finish_tenant :
    ServiceConfig → Env → Tenant → Option CreateKeyRequest → World → Outcome Tenant
unfolding create_initial_key announce_tenant
finish_tenant config env t key w =
    let (w', result) = create_initial_key env t key (create_quota config env t w) in
    elim result [
      | err e ↦ (w', err e)
      | ok u ↦ (announce_tenant env t.id (codes "create_tenant") w', ok t)
    ]

-- The whole call as one step; nothing in the service keeps other calls out between its stages.
unfoldable pub create_tenant : ServiceConfig → Env → CreateTenantRequest → World → Outcome Tenant
create_tenant config env req w = elim (admit_tenant config env req w.tenants) [
  | err e ↦ (w, err e)
  | ok u ↦
      let (w1, topics) = provision_topics config env req.slug w in
      elim topics [
        | err e ↦ (w1, err e)
        | ok here ↦
            let (w2, inserted) = insert_tenant config env (tenant_of env req) here w1 in
            elim inserted [
              | err e ↦ (w2, err e)
              | ok v ↦ finish_tenant config env (tenant_of env req) req.public_key w2
            ]
      ]
]
