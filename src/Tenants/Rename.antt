-- ===== src/Tenants/Rename.antt =====
-- RenameTenant of ws/internal/provisioning/service.go, its steps in the order of the code, and the
-- check of a claim in RequireTenant of api/middleware.go.
use sukko.Common.{
  ℕ, ◌+◌, Bool, true, false, not, ◌&&◌, ◌||◌, none, some, List, [], ◌∷◌, Result, ok, err,
  if◌then◌else◌, leb, ◌==◌, nat_eq, list_eq, ◌>>◌,
}
use sukko.Common.Map.{lookup}
use sukko.Common.Text.{Text, codes}
use sukko.Tenants.{
  status_active, status_deleted, status_eq, rename_pending, Tenant, validate_slug, is_reserved_slug,
}
use sukko.Tenants.Store.{
  slug_already_taken, cas_failed, get_by_slug, is_complete, update_slug, set_rename_state,
  clear_rename_state, renamed_after,
}
use sukko.Tenants.Service.{
  ServiceConfig, ServiceError, invalid_tenant, slug_reserved, tenant_not_active, slug_unchanged,
  slug_rename_in_progress, slug_taken, topic_creation_failed, acl_creation_failed, store_failed,
  tenant_config_changed, delete_topic, create_topic_acls, delete_topic_acls, delete_quota,
  set_quota, topic_refused, TopicCreation, get_tenant, get_tenant_by_new_slug, set_rename_row,
  update_slug_row, clear_rename_row, get_quota_row, Env, World, Outcome, stored, call, emit_event,
  audit_log, InfraTopicSpec, infra_topic_specs, topic_name, create_infra_topic,
}
use sukko.Tenants.Create.{validated}

abbrev pub is_refused : TopicCreation → Bool
is_refused topic_refused = true
is_refused _ = false

-- ClearRenameState, whose failure is only logged.
unfoldable pub clear_state : Env → Text → World → World
unfolding clear_rename_state
clear_state env id w =
    if env.fails clear_rename_row then w else record w { tenants = clear_rename_state id w.tenants }

-- Steps 6 and 7: a rename whose hold period is over is cleared.
unfoldable pub pass_hold : ServiceConfig → Env → Tenant → World → Outcome (Unit {0})
unfolding clear_state
pass_hold config env t w = elim t.slug_renamed_at [
  | none ↦ (w, ok tt)
  | some at ↦
      if leb (at + config.slug_rename_topic_hold_period) env.now
      then (clear_state env t.id w, ok tt)
      else (w, err slug_rename_in_progress)
]

abbrev pub is_taken : Result ServiceError Tenant → Bool
is_taken (ok existing) = not (existing.status == status_deleted)
is_taken (err e) = false

-- Step 9.
abbrev pub lock_result : Result ServiceError (List Tenant) → Result ServiceError (List Tenant)
lock_result (err (store_failed cas_failed)) = err slug_rename_in_progress
lock_result r = r

-- Step 11: stops at the first topic that cannot be created.
unfoldable pub create_new_topics :
    ServiceConfig → Env → Text → List InfraTopicSpec → World → Outcome (Unit {0})
unfolding create_infra_topic
create_new_topics config env slug [] w = (w, ok tt)
create_new_topics config env slug (spec ∷ specs) w =
    let w1 = create_infra_topic config slug spec w in
    let rest = create_new_topics config env slug specs w1 in
    if is_refused (env.topic_creation (topic_name config slug spec.suffix))
    then (w1, err topic_creation_failed)
    else rest

unfoldable pub delete_new_topics : ServiceConfig → Text → List InfraTopicSpec → World → World
unfolding call
delete_new_topics config slug [] w = w
delete_new_topics config slug (spec ∷ specs) w =
    delete_new_topics config slug specs (call (delete_topic (topic_name config slug spec.suffix)) w)

-- Step 12 when the slug was taken in the meantime.
unfoldable pub compensate : ServiceConfig → Env → Text → Text → World → World
unfolding call delete_new_topics infra_topic_specs clear_state
compensate config env id new_slug w = clear_state env id (
    delete_new_topics config new_slug (infra_topic_specs config)
      (call (delete_topic_acls new_slug) w))

-- Step 15.
unfoldable pub move_quota : Env → Tenant → Text → World → World
unfolding call lookup
move_quota env t new_slug w = if env.fails get_quota_row then w else elim (lookup t.id w.quotas) [
  | none ↦ w
  | some q ↦
      call (set_quota new_slug q.producer_byte_rate q.consumer_byte_rate)
        (call (delete_quota t.slug) w)
]

-- Steps 13 to 16.
unfoldable pub finish_rename : Env → Tenant → Text → World → World
unfolding call audit_log move_quota emit_event
finish_rename env t new_slug w = emit_event tenant_config_changed (
    move_quota env t new_slug
      (call (delete_topic_acls t.slug) (audit_log env t.id (codes "rename_tenant") w)))

-- Step 12 when the statement fails.
unfoldable pub commit_failed :
    ServiceConfig → Env → Text → Text → ServiceError → World → Outcome (Unit {0})
unfolding compensate
commit_failed config env id new_slug (store_failed slug_already_taken) w =
    (compensate config env id new_slug w, err slug_taken)
commit_failed config env id new_slug e w = (w, err e)

-- Step 12 and what follows.
unfoldable pub commit_slug : ServiceConfig → Env → Tenant → Text → World → Outcome (Unit {0})
unfolding commit_failed finish_rename
commit_slug config env t new_slug w =
    elim (stored (env.fails update_slug_row) (update_slug env.now t.id new_slug w.tenants)) [
      | err e ↦ commit_failed config env t.id new_slug e w
      | ok rows ↦ (finish_rename env t new_slug (record w { tenants = rows }), ok tt)
    ]

-- Steps 10 to 18, behind the lock.
unfoldable pub run_saga : ServiceConfig → Env → Tenant → Text → World → Outcome (Unit {0})
unfolding call create_new_topics commit_slug infra_topic_specs
run_saga config env t new_slug w =
    let w1 = call (create_topic_acls new_slug) w in
    if env.kafka_fails (create_topic_acls new_slug)
    then (w1, err acl_creation_failed)
    else let (w2, created) = create_new_topics config env new_slug (infra_topic_specs config) w1 in
      elim created [ err e ↦ (w2, err e) | ok u ↦ commit_slug config env t new_slug w2 ]

-- Steps 8 and 9.
unfoldable pub lock_slug : ServiceConfig → Env → Tenant → Text → World → Outcome (Unit {0})
unfolding run_saga
lock_slug config env t new_slug w =
    if is_taken (stored (env.fails get_tenant_by_new_slug) (get_by_slug new_slug w.tenants))
    then (w, err slug_taken)
    else elim (lock_result (
        stored (env.fails set_rename_row)
          (set_rename_state t.id rename_pending t.slug w.tenants))) [
            | err e ↦ (w, err e)
            | ok rows ↦ run_saga config env t new_slug (record w { tenants = rows })
          ]

-- Steps 4 to 18, with the tenant that was read.
unfoldable pub rename_found : ServiceConfig → Env → Tenant → Text → World → Outcome (Unit {0})
unfolding pass_hold lock_slug
rename_found config env t new_slug w =
    if not (t.status == status_active)
    then (w, err tenant_not_active)
    else if new_slug == t.slug
    then (w, err slug_unchanged)
    else let (w1, held) = pass_hold config env t w in
      elim held [ err e ↦ (w1, err e) | ok u ↦ lock_slug config env t new_slug w1 ]

-- Steps 1 and 2.
unfoldable pub check_new_slug : Text → Result ServiceError (Unit {0})
check_new_slug new_slug =
    validated invalid_tenant (validate_slug new_slug)
    >> (if is_reserved_slug new_slug then err slug_reserved else ok tt)

unfoldable pub rename_tenant : ServiceConfig → Env → Text → Text → World → Outcome (Unit {0})
unfolding rename_found check_new_slug
rename_tenant config env slug new_slug w = elim (check_new_slug new_slug) [
  | err e ↦ (w, err e)
  | ok u ↦ elim (stored (env.fails get_tenant) (get_by_slug slug w.tenants)) [
    | err e ↦ (w, err e)
    | ok t ↦ rename_found config env t new_slug w
  ]
]

-- The claim of a token against the tenant of the request's path.
unfoldable pub claim_matches : ℕ → ℕ → Text → Tenant → Bool
claim_matches now hold claim t =
    claim == t.slug
    || (t.status == status_active
        && is_complete t.slug_rename_state
        && not (t.previous_slug == [])
        && renamed_after now hold t.slug_renamed_at
        && claim == t.previous_slug)
