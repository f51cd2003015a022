-- ===== src/Tenants/Deletion.antt =====
-- DeprovisionTenant and forceDeleteTenant of ws/internal/provisioning/service.go, and the sweeper of
-- lifecycle.go, which deletes the tenants whose grace period is over. Steps that only log their
-- failure go on.
use sukko.Common.{
  ℕ, ◌+◌, ◌*◌, Bool, true, false, not, ◌&&◌, ◌||◌, Option, none, some, List, [], ◌∷◌, ◌++◌, ok, err,
  if◌then◌else◌, ◌==◌, nat_eq, list_eq, dedup_from,
}
use sukko.Common.Map.{lookup, delete}
use sukko.Common.Text.{Text, codes}
use sukko.Topics.{TopicRoutingRule, all_topic_suffixes}
use sukko.Tenants.{status_active, status_deprovisioning, status_deleted, status_eq, Tenant}
use sukko.Tenants.Store.{get_by_slug, update_status, set_deprovision_at, get_tenants_for_deletion}
use sukko.Tenants.KeyStore.{ApiKey, revoke_all_for_tenant, list_by_tenant, revoke_api_key_row}
use sukko.Tenants.Service.{
  ServiceConfig, tenant_deleted, tenant_not_active, keys_changed, delete_topic, set_retention,
  delete_topic_acl, delete_group_acl, get_tenant, update_status_row, set_deprovision_row,
  revoke_all_keys, list_api_keys, revoke_api_key, get_routing_rules, delete_routing_rules,
  delete_channel_rules, write_audit_entry, list_deletions, Env, World, Outcome, stored, call,
  emit_event, dec_active_tenants, topic_name,
}
use sukko.Tenants.Create.{announce_tenant}

abbrev pub ms_per_day : ℕ
ms_per_day = 86_400_000

unfoldable pub suffixes_of : List TopicRoutingRule → List Text
unfolding all_topic_suffixes
suffixes_of [] = []
suffixes_of (rule ∷ rules) = all_topic_suffixes rule ++ suffixes_of rules

abbrev rules_or_none : Option (List TopicRoutingRule) → List TopicRoutingRule
rules_or_none none = []
rules_or_none (some rules) = rules

-- The suffixes of the tenant's rules, each once; none if the rules cannot be read.
unfoldable pub cleanup_suffixes : ServiceConfig → Env → Text → World → List Text
unfolding lookup dedup_from suffixes_of
cleanup_suffixes config env id w =
    if not config.has_routing_rules || env.fails get_routing_rules
    then []
    else dedup_from [] (suffixes_of (rules_or_none (lookup id w.routing_rules)))

unfoldable pub set_retentions : ServiceConfig → Text → List Text → World → World
unfolding call
set_retentions config slug [] w = w
set_retentions config slug (suffix ∷ suffixes) w = set_retentions config slug suffixes (
    call
      (set_retention (topic_name config slug suffix) (config.deprovision_grace_days * ms_per_day))
      w)

unfoldable pub delete_topics : ServiceConfig → Text → List Text → World → World
unfolding call
delete_topics config slug [] w = w
delete_topics config slug (suffix ∷ suffixes) w =
    delete_topics config slug suffixes (call (delete_topic (topic_name config slug suffix)) w)

unfoldable pub revoke_keys : Env → Text → World → World
unfolding revoke_all_for_tenant emit_event
revoke_keys env id w =
    if env.fails revoke_all_keys
    then w
    else emit_event keys_changed (record w { keys = revoke_all_for_tenant env.now id w.keys })

abbrev pub api_key_limit : ℕ
api_key_limit = 10_000

-- The loop over the listed keys: the rows, and whether a key was revoked.
unfoldable pub revoke_listed : Env → List ApiKey → List ApiKey → List ApiKey × Bool
unfolding revoke_api_key_row
revoke_listed env [] rows = (rows, false)
revoke_listed env (k ∷ listed) rows =
    if k.is_active && not (env.fails revoke_api_key)
    then ((revoke_listed env listed (revoke_api_key_row env.now k.key_id rows)).0, true)
    else revoke_listed env listed rows

unfoldable pub set_revoked : List ApiKey × Bool → World → World
unfolding emit_event
set_revoked (rows, true) w = emit_event keys_changed (record w { api_keys = rows })
set_revoked (rows, false) w = record w { api_keys = rows }

unfoldable pub revoke_api_keys : ServiceConfig → Env → Text → World → World
unfolding list_by_tenant revoke_listed set_revoked
revoke_api_keys config env id w =
    if not config.has_api_keys || env.fails list_api_keys
    then w
    else set_revoked (revoke_listed env (list_by_tenant id api_key_limit 0 w.api_keys) w.api_keys) w

unfoldable pub delete_rules : ServiceConfig → Env → Text → World → World
unfolding delete
delete_rules config env id w =
    if config.has_routing_rules && not (env.fails delete_routing_rules)
    then record w { routing_rules = delete id w.routing_rules }
    else w

unfoldable pub delete_channels : ServiceConfig → Env → Text → World → World
unfolding delete
delete_channels config env id w =
    if config.has_channel_rules && not (env.fails delete_channel_rules)
    then record w { channel_rules = delete id w.channel_rules }
    else w

-- forceDeleteTenant behind the change of the status.
unfoldable pub clean_up : ServiceConfig → Env → Tenant → List Text → World → World
unfolding revoke_keys revoke_api_keys delete_rules delete_channels delete_topics announce_tenant
clean_up config env t suffixes w =
    let w1 = revoke_api_keys config env t.id (revoke_keys env t.id w) in
    let w2 = delete_channels config env t.id (delete_rules config env t.id w1) in
    announce_tenant env t.id (codes "deprovision_tenant") (delete_topics config t.slug suffixes w2)

unfoldable pub force_delete_tenant : ServiceConfig → Env → Tenant → World → Outcome (Unit {0})
force_delete_tenant config env t w =
    elim (stored (env.fails update_status_row)
      (update_status env.now t.id status_deleted w.tenants)) [
        | err e ↦ (w, err e)
        | ok rows ↦ (
          clean_up config env t (cleanup_suffixes config env t.id w) (record w { tenants = rows }),
          ok tt,
        )
      ]

abbrev pub dec_if_active : Tenant → World → World
dec_if_active t w = if t.status == status_active then dec_active_tenants w else w

-- SetDeprovisionAt, whose failure is only logged.
unfoldable pub set_deadline : ServiceConfig → Env → Text → World → World
set_deadline config env id w =
    elim (stored (env.fails set_deprovision_row)
      (set_deprovision_at id (env.now + config.deprovision_grace_days * ms_per_day) w.tenants)) [
        | err e ↦ w
        | ok rows ↦ record w { tenants = rows }
      ]

-- DeprovisionTenant with a grace period.
unfoldable pub begin_deprovision : ServiceConfig → Env → Tenant → World → Outcome (Unit {0})
unfolding dec_active_tenants revoke_keys set_deadline cleanup_suffixes set_retentions
    announce_tenant
begin_deprovision config env t w =
    elim (stored (env.fails update_status_row)
      (update_status env.now t.id status_deprovisioning w.tenants)) [
        | err e ↦ (w, err e)
        | ok rows ↦
            let w1 = dec_if_active t (record w { tenants = rows }) in
            let w2 = set_deadline config env t.id (revoke_keys env t.id w1) in
            let w3 = set_retentions config t.slug (cleanup_suffixes config env t.id w2) w2 in
            (announce_tenant env t.id (codes "deprovision_tenant") w3, ok tt)
      ]

-- DeprovisionTenant by force.
unfoldable pub force_deprovision : ServiceConfig → Env → Tenant → World → Outcome (Unit {0})
unfolding dec_active_tenants
force_deprovision config env t w =
    let (w1, result) = force_delete_tenant config env t w in
    elim result [ err e ↦ (w1, err e) | ok u ↦ (dec_if_active t w1, ok u) ]

-- DeprovisionTenant with the tenant that it has read.
unfoldable pub deprovision_found : ServiceConfig → Env → Tenant → Bool → World → Outcome (Unit {0})
unfolding begin_deprovision force_deprovision
deprovision_found config env t force w =
    if t.status == status_deleted
    then (w, err tenant_deleted)
    else if not force && t.status == status_deprovisioning
    then (w, err tenant_not_active)
    else if force
    then force_deprovision config env t w
    else begin_deprovision config env t w

unfoldable pub deprovision_tenant : ServiceConfig → Env → Text → Bool → World → Outcome (Unit {0})
unfolding deprovision_found
deprovision_tenant config env slug force w =
    elim (stored (env.fails get_tenant) (get_by_slug slug w.tenants)) [
      | err e ↦ (w, err e)
      | ok t ↦ deprovision_found config env t force w
    ]

-- What deleteTenant of lifecycle.go does before the status.
unfoldable pub sweep_up : ServiceConfig → Env → Tenant → World → World
unfolding cleanup_suffixes delete_topics delete_rules call
sweep_up config env t w =
    let w1 = delete_topics config t.slug (cleanup_suffixes config env t.id w) w in
    let w2 = delete_rules config env t.id w1 in
    let w3 =
      call (delete_group_acl t.slug)
        (call (delete_topic_acl (config.topic_namespace ++ b'.' ∷ t.slug)) w2) in
    if env.fails write_audit_entry
    then w3
    else record w3 { audit = (t.id, codes "delete_tenant") ∷ w3.audit }

unfoldable pub delete_tenant : ServiceConfig → Env → Tenant → World → Outcome (Unit {0})
unfolding sweep_up
delete_tenant config env t w =
    let w1 = sweep_up config env t w in
    elim (stored (env.fails update_status_row)
      (update_status env.now t.id status_deleted w1.tenants)) [
        | err e ↦ (w1, err e)
        | ok rows ↦ (record w1 { tenants = rows }, ok tt)
      ]

unfoldable pub delete_tenants : ServiceConfig → Env → List Tenant → World → World
unfolding delete_tenant
delete_tenants config env [] w = w
delete_tenants config env (t ∷ due) w =
    delete_tenants config env due (delete_tenant config env t w).0

-- One round of the sweeper.
unfoldable pub process_deletions : ServiceConfig → Env → World → World
unfolding delete_tenants get_tenants_for_deletion
process_deletions config env w =
    if env.fails list_deletions
    then w
    else delete_tenants config env (get_tenants_for_deletion env.now w.tenants) w
