-- ===== src/Tenants/LifeCycle.antt =====
-- UpdateTenant, SuspendTenant and ReactivateTenant of ws/internal/provisioning/service.go.
use sukko.Common.{
  not, Option, none, some, List, [], ◌∷◌, ok, err, if◌then◌else◌, ◌==◌, nat_eq, list_eq,
}
use sukko.Common.Text.{Text, codes}
use sukko.Tenants.{
  status_active, status_suspended, status_deleted, status_eq, ConsumerType, Tenant, validate_tenant,
}
use sukko.Tenants.Store.{get_by_slug, update, update_status}
use sukko.Tenants.Service.{
  ServiceConfig, invalid_tenant, tenant_deleted, tenant_not_active, slug_immutable_via_patch,
  tenant_config_changed, get_tenant, update_tenant_row, update_status_row, Env, World, Outcome,
  stored, emit_event, audit_log, inc_active_tenants, dec_active_tenants, InfraTopicSpec,
  infra_topic_specs, create_infra_topic,
}
use sukko.Tenants.Create.{validated, announce_tenant}

pub record UpdateTenantRequest : Type 0 where
  pub slug : Option Text
  pub name : Option Text
  pub consumer_type : Option ConsumerType
  pub metadata : Option Text

abbrev pub or_old {ℓ} : {A : Type ℓ} → Option A → A → A
or_old none old = old
or_old (some new) old = new

unfoldable pub patched : UpdateTenantRequest → Tenant → Tenant
patched req t = record t {
  name = or_old req.name t.name;
  consumer_type = or_old req.consumer_type t.consumer_type;
  metadata = or_old req.metadata t.metadata;
}

-- UpdateTenant behind the checks of the status and of the slug.
unfoldable pub update_found : Env → Tenant → World → Outcome Tenant
unfolding audit_log emit_event
update_found env t w = elim (validated invalid_tenant (validate_tenant t)) [
  | err e ↦ (w, err e)
  | ok u ↦ elim (stored (env.fails update_tenant_row) (update t w.tenants)) [
    | err e ↦ (w, err e)
    | ok rows ↦ (
      emit_event tenant_config_changed
          (audit_log env t.id (codes "update_tenant") (record w { tenants = rows })),
      ok t,
    )
  ]
]

unfoldable pub update_tenant : Env → Text → UpdateTenantRequest → World → Outcome Tenant
unfolding update_found
update_tenant env slug req w = elim (stored (env.fails get_tenant) (get_by_slug slug w.tenants)) [
  | err e ↦ (w, err e)
  | ok t ↦ if t.status == status_deleted then (w, err tenant_deleted) else elim req.slug [
    | some new_slug ↦ (w, err slug_immutable_via_patch)
    | none ↦ update_found env (patched req t) w
  ]
]

-- SuspendTenant with the tenant that it has read.
unfoldable pub suspend_found : Env → Tenant → World → Outcome (Unit {0})
unfolding dec_active_tenants announce_tenant
suspend_found env t w =
    if t.status == status_deleted
    then (w, err tenant_deleted)
    else if not (t.status == status_active)
    then (w, err tenant_not_active)
    else elim (stored (env.fails update_status_row)
        (update_status env.now t.id status_suspended w.tenants)) [
          | err e ↦ (w, err e)
          | ok rows ↦ (
            announce_tenant env t.id (codes "suspend_tenant")
                (dec_active_tenants (record w { tenants = rows })),
            ok tt,
          )
        ]

unfoldable pub suspend_tenant : Env → Text → World → Outcome (Unit {0})
unfolding suspend_found
suspend_tenant env slug w = elim (stored (env.fails get_tenant) (get_by_slug slug w.tenants)) [
  | err e ↦ (w, err e)
  | ok t ↦ suspend_found env t w
]

-- The loop over the topics of the infrastructure; its failures do not count.
unfoldable pub create_infra_topics : ServiceConfig → Text → List InfraTopicSpec → World → World
unfolding create_infra_topic
create_infra_topics config slug [] w = w
create_infra_topics config slug (spec ∷ specs) w =
    create_infra_topics config slug specs (create_infra_topic config slug spec w)

-- ReactivateTenant with the tenant that it has read.
unfoldable pub reactivate_found : ServiceConfig → Env → Tenant → World → Outcome (Unit {0})
unfolding create_infra_topics infra_topic_specs inc_active_tenants announce_tenant
reactivate_found config env t w =
    if t.status == status_deleted
    then (w, err tenant_deleted)
    else if not (t.status == status_suspended)
    then (w, err tenant_not_active)
    else let w1 = create_infra_topics config t.slug (infra_topic_specs config) w in
      elim (stored (env.fails update_status_row)
        (update_status env.now t.id status_active w.tenants)) [
          | err e ↦ (w1, err e)
          | ok rows ↦ (
            announce_tenant env t.id (codes "reactivate_tenant")
                (inc_active_tenants (record w1 { tenants = rows })),
            ok tt,
          )
        ]

unfoldable pub reactivate_tenant : ServiceConfig → Env → Text → World → Outcome (Unit {0})
unfolding reactivate_found
reactivate_tenant config env slug w =
    elim (stored (env.fails get_tenant) (get_by_slug slug w.tenants)) [
      | err e ↦ (w, err e)
      | ok t ↦ reactivate_found config env t w
    ]
