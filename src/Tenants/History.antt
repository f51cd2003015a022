-- ===== src/Tenants/History.antt =====
-- Start of ws/internal/provisioning/service.go, and histories: sequences of the service's operations
-- and of the sweeper's rounds, each with what it meets. The calls of a history do not overlap: one has
-- ended when the next begins, which nothing in the service enforces.
use sukko.Common.{
  ◌≡◌, refl, sym, subst, inl, inr, Bool, false, not, ◌&&◌, List, [], ◌∷◌, arith, if◌then◌else◌,
  ◌==◌, nat_eq, list_eq, Distinct, Bool-cases,
}
use sukko.Common.Int.{pos}
use sukko.Common.Text.{Text}
use sukko.Tenants.{Tenant}
use sukko.Tenants.Store.{count_active, list_pending_renames, is_complete}
use sukko.Tenants.Service.{
  ServiceConfig, tenant_config_changed, list_renames, count_active_tenants, Env, World, emit_event,
}
use sukko.Tenants.Create.{CreateTenantRequest, CreateKeyRequest, create_tenant}
use sukko.Tenants.LifeCycle.{UpdateTenantRequest, update_tenant, suspend_tenant, reactivate_tenant}
use sukko.Tenants.Deletion.{deprovision_tenant, process_deletions}
use sukko.Tenants.Rename.{rename_tenant}
use sukko.Tenants.Credentials.{
  UpdateQuotaRequest, create_tenant_key, revoke_tenant_key, create_tenant_api_key,
  revoke_tenant_api_key, update_quota,
}
use sukko.Tenants.Rows.{ids}
use sukko.Tenants.Frames.{Framed}
use sukko.Tenants.Gauge.{Later, Exact, Exact-Framed, suspend_tenant-Exact, reactivate_tenant-Exact}
use sukko.Tenants.DeletionGauge.{deprovision_tenant-Exact}
use sukko.Tenants.SweepGauge.{process_deletions-Exact}
use sukko.Tenants.CreateGauge.{create_tenant-Exact, update_tenant-Exact}
use sukko.Tenants.RenameGauge.{rename_tenant-Exact}
use sukko.Tenants.CredentialFrames.{
  create_tenant_key-Framed, revoke_tenant_key-Framed, create_tenant_api_key-Framed,
  revoke_tenant_api_key-Framed, update_quota-Framed,
}

-- The events of the startup scan: one for each rename in its hold period.
unfoldable pub emit_renames : List Tenant → World → World
unfolding emit_event
emit_renames [] w = w
emit_renames (t ∷ renames) w = emit_renames renames (
    if is_complete t.slug_rename_state && not (t.previous_slug == [])
    then emit_event tenant_config_changed w
    else w)

-- Start: a scan or a count that fails leaves the gauge as it is, which is 0 in a process that has just
-- begun.
unfoldable pub start : Env → World → World
unfolding emit_renames list_pending_renames count_active
start env w =
    if env.fails list_renames
    then w
    else let w1 = emit_renames (list_pending_renames w.tenants) w in
      if env.fails count_active_tenants
      then w1
      else record w1 { active_tenants = pos (count_active w1.tenants) }

pub data Operation : Type 0 where
  start_up sweep : Operation
  create : CreateTenantRequest → Operation
  patch : Text → UpdateTenantRequest → Operation
  suspend reactivate : Text → Operation
  deprovision : Text → Bool → Operation
  rename : Text → Text → Operation
  add_key : Text → CreateKeyRequest → Operation
  drop_key add_api_key drop_api_key : Text → Text → Operation
  change_quota : Text → UpdateQuotaRequest → Operation

unfoldable pub perform : ServiceConfig → Env → Operation → World → World
unfolding start
perform config env start_up w = start env w
perform config env sweep w = process_deletions config env w
perform config env (create req) w = (create_tenant config env req w).0
perform config env (patch slug req) w = (update_tenant env slug req w).0
perform config env (suspend slug) w = (suspend_tenant env slug w).0
perform config env (reactivate slug) w = (reactivate_tenant config env slug w).0
perform config env (deprovision slug force) w = (deprovision_tenant config env slug force w).0
perform config env (rename slug new_slug) w = (rename_tenant config env slug new_slug w).0
perform config env (add_key slug req) w = (create_tenant_key env slug req w).0
perform config env (drop_key slug key_id) w = (revoke_tenant_key env slug key_id w).0
perform config env (add_api_key slug name) w = (create_tenant_api_key env slug name w).0
perform config env (drop_api_key slug key_id) w = (revoke_tenant_api_key env slug key_id w).0
perform config env (change_quota slug req) w = (update_quota env slug req w).0

unfoldable pub perform_all : ServiceConfig → List (Env × Operation) → World → World
unfolding perform
perform_all config [] w = w
perform_all config ((env, o) ∷ history) w = perform_all config history (perform config env o w)

emit_renames-Framed : (renames : List Tenant) (w : World) → Framed w (emit_renames renames w)
unfolding emit_renames emit_event
emit_renames-Framed [] w = (refl, refl)
emit_renames-Framed (t ∷ renames) w =
    elim (Bool-cases (is_complete t.slug_rename_state && not (t.previous_slug == []))) [
      | inl complete ↦
          rw (emit_renames, complete)
            (emit_renames-Framed renames (emit_event tenant_config_changed w))
      | inr other ↦ rw (emit_renames, other) (emit_renames-Framed renames w)
    ]

start-Exact : (past : List Tenant) (env : Env) (w : World) → Exact past w → Exact past (start env w)
unfolding start
start-Exact past env w x =
    let w1 = emit_renames (list_pending_renames w.tenants) w in
    let x1 = Exact-Framed past w w1 (emit_renames-Framed (list_pending_renames w.tenants) w) x in
    elim (Bool-cases (env.fails list_renames)) [
      | inl fails ↦ rw (start, fails) x
      | inr runs ↦ elim (Bool-cases (env.fails count_active_tenants)) [
        | inl fails ↦ rw (start, runs, fails) x1
        | inr counts ↦ rw (start, runs, counts) (x1.0, refl, x1.2)
      ]
    ]

-- A start that could scan and count sets the gauge right, whatever it showed.
counted_start :
    (env : Env) (w : World)
    → Distinct (ids w.tenants)
    → env.fails list_renames ≡ false
    → env.fails count_active_tenants ≡ false
    → Exact w.tenants (start env w)
unfolding start
counted_start env w d scans counts =
    let w1 = emit_renames (list_pending_renames w.tenants) w in
    let (rows, _) = emit_renames-Framed (list_pending_renames w.tenants) w in
    rw (start, scans, counts)
      (
        subst (λ r. Distinct (ids r)) (sym rows) d,
        refl,
        subst (Later w.tenants) (sym rows) (λ id. omega arith),
      )

perform-Exact :
    (past : List Tenant) (config : ServiceConfig) (env : Env) (o : Operation) (w : World)
    → Exact past w
    → Exact past (perform config env o w)
unfolding perform
perform-Exact past config env start_up w x = start-Exact past env w x
perform-Exact past config env sweep w x = process_deletions-Exact past config env w x
perform-Exact past config env (create req) w x = create_tenant-Exact past config env req w x
perform-Exact past config env (patch slug req) w x = update_tenant-Exact past env slug req w x
perform-Exact past config env (suspend slug) w x = suspend_tenant-Exact past env slug w x
perform-Exact past config env (reactivate slug) w x =
    reactivate_tenant-Exact past config env slug w x
perform-Exact past config env (deprovision slug force) w x =
    deprovision_tenant-Exact past config env slug force w x
perform-Exact past config env (rename slug new_slug) w x =
    rename_tenant-Exact past config env slug new_slug w x
perform-Exact past config env (add_key slug req) w x =
    Exact-Framed past w (create_tenant_key env slug req w).0
      (create_tenant_key-Framed env slug req w) x
perform-Exact past config env (drop_key slug id) w x =
    Exact-Framed past w (revoke_tenant_key env slug id w).0 (revoke_tenant_key-Framed env slug id w)
      x
perform-Exact past config env (add_api_key slug name) w x =
    Exact-Framed past w (create_tenant_api_key env slug name w).0
      (create_tenant_api_key-Framed env slug name w) x
perform-Exact past config env (drop_api_key slug id) w x =
    Exact-Framed past w (revoke_tenant_api_key env slug id w).0
      (revoke_tenant_api_key-Framed env slug id w) x
perform-Exact past config env (change_quota slug req) w x =
    Exact-Framed past w (update_quota env slug req w).0 (update_quota-Framed env slug req w) x

perform_all-Exact :
    (past : List Tenant) (config : ServiceConfig) (history : List (Env × Operation)) (w : World)
    → Exact past w
    → Exact past (perform_all config history w)
unfolding perform_all
perform_all-Exact past config [] w x = x
perform_all-Exact past config ((env, o) ∷ history) w x =
    perform_all-Exact past config history (perform config env o w)
      (perform-Exact past config env o w x)

-- In a process whose start could scan and count, and in which no two calls overlap, the gauge is the
-- number of active tenants after any history of calls, whatever fails in them: an operation that stops
-- half way has moved the gauge exactly when it has moved a tenant into or out of the active ones. The
-- identifiers of the table are taken to be distinct at the beginning.
pub active_tenants_exact :
    (config : ServiceConfig) (env : Env) (history : List (Env × Operation)) (w : World)
    → Distinct (ids w.tenants)
    → env.fails list_renames ≡ false
    → env.fails count_active_tenants ≡ false
    → let w' = perform_all config history (start env w) in
      Distinct (ids w'.tenants) × (w'.active_tenants ≡ pos (count_active w'.tenants))
active_tenants_exact config env history w d scans counts =
    let (d', gauge', _) =
      perform_all-Exact w.tenants config history (start env w)
        (counted_start env w d scans counts) in
    (d', gauge')

-- In every history no tenant goes back in its life: who is deprovisioning is never active or
-- suspended again, and who is deleted stays in the table as deleted; under the same conditions.
pub never_back :
    (config : ServiceConfig) (history : List (Env × Operation)) (w : World)
    → Distinct (ids w.tenants)
    → w.active_tenants ≡ pos (count_active w.tenants)
    → Later w.tenants (perform_all config history w).tenants
never_back config history w d gauge =
    (perform_all-Exact w.tenants config history w (d, gauge, λ id. omega arith)).2
