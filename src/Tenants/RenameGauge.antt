-- ===== src/Tenants/RenameGauge.antt =====
-- The gauge of active tenants under a rename, which changes no status.
use sukko.Common.{
  ℕ, ◌≡◌, refl, inl, inr, true, false, not, ◌&&◌, none, some, List, [], Result, ok, err, arith,
  ◌==◌, nat_eq, list_eq, Bool-cases, Result-cases, Option-cases, any, leb, ◌+◌,
}
use sukko.Common.Text.{Text}
use sukko.Tenants.{status_active, status_eq, rename_pending, SlugRenameState, Tenant}
use sukko.Tenants.Store.{
  update_where, update_slug, set_rename_state, clear_rename_state, is_id, rename_row, is_pending,
  get_by_slug,
}
use sukko.Tenants.Service.{
  ServiceConfig, ServiceError, get_tenant, get_tenant_by_new_slug, set_rename_row, update_slug_row,
  clear_rename_row, create_topic_acls, Env, World, stored, call, infra_topic_specs,
  delete_topic_acls,
}
use sukko.Tenants.Frames.{create_new_topics-Framed, delete_new_topics-Framed, finish_rename-Framed}
use sukko.Tenants.Rename.{
  clear_state, pass_hold, is_taken, lock_result, create_new_topics, delete_new_topics, compensate,
  commit_failed, finish_rename, commit_slug, run_saga, lock_slug, rename_found, rename_tenant,
  check_new_slug,
}
use sukko.Tenants.Gauge.{Exact, Exact-Framed, stored_ok}
use sukko.Tenants.CreateGauge.{rows_changed-Exact}

abbrev pub cleared : Tenant → Tenant
cleared t = record t { slug_rename_state = none; previous_slug = []; slug_renamed_at = none }

abbrev pub locked : SlugRenameState → Text → Tenant → Tenant
locked state previous t = record t { slug_rename_state = some state; previous_slug = previous }

clear_state-Exact :
    (past : List Tenant) (env : Env) (id : Text) (w : World)
    → Exact past w
    → Exact past (clear_state env id w)
unfolding clear_state clear_rename_state
clear_state-Exact past env id w x = elim (Bool-cases (env.fails clear_rename_row)) [
  | inl fails ↦ rw (clear_state, fails) x
  | inr runs ↦
      rw (clear_state, runs)
        (rows_changed-Exact past (is_id id) cleared w (update_where (is_id id) cleared w.tenants)
          (λ t. (refl, refl)) refl x)
]

pass_hold-Exact :
    (past : List Tenant) (config : ServiceConfig) (env : Env) (t : Tenant) (w : World)
    → Exact past w
    → Exact past (pass_hold config env t w).0
unfolding pass_hold
pass_hold-Exact past config env t w x = elim (Option-cases t.slug_renamed_at) [
  | inl never ↦ rw (pass_hold, never) x
  | inr (at, renamed) ↦
      elim (Bool-cases (leb (at + config.slug_rename_topic_hold_period) env.now)) [
        | inl over ↦ rw (pass_hold, renamed, over) (clear_state-Exact past env t.id w x)
        | inr held ↦ rw (pass_hold, renamed, held) x
      ]
]

compensate-Exact :
    (past : List Tenant) (config : ServiceConfig) (env : Env) (id new_slug : Text) (w : World)
    → Exact past w
    → Exact past (compensate config env id new_slug w)
unfolding compensate call
compensate-Exact past config env id new_slug w x =
    let w1 = call (delete_topic_acls new_slug) w in
    let specs = infra_topic_specs config in
    let w2 = delete_new_topics config new_slug specs w1 in
    clear_state-Exact past env id w2
      (Exact-Framed past w1 w2 (delete_new_topics-Framed config new_slug specs w1) x)

pub update_slug_lem :
    (now : ℕ) (id new_slug : Text) (rows rows' : List Tenant)
    → update_slug now id new_slug rows ≡ ok rows'
    → (rows' ≡ update_where (is_id id) (rename_row now new_slug) rows)
      × (any (is_id id) rows ≡ true)
      × (any (λ t. t.slug == new_slug && not (is_id id t)) rows ≡ false)
unfolding update_slug
update_slug_lem now id new_slug rows rows' h = ground (arith, h)

pub set_rename_state_lem :
    (id : Text) (state : SlugRenameState) (previous : Text) (rows rows' : List Tenant)
    → set_rename_state id state previous rows ≡ ok rows'
    → rows'
      ≡ update_where
          (λ t. is_id id t && not (is_pending t.slug_rename_state))
          (locked state previous)
          rows
unfolding set_rename_state
set_rename_state_lem id state previous rows rows' h = ground (arith, h)

commit_failed-Exact :
    (past : List Tenant) (config : ServiceConfig) (env : Env) (id new_slug : Text)
    (e : ServiceError) (w : World)
    → Exact past w
    → Exact past (commit_failed config env id new_slug e w).0
unfolding commit_failed
commit_failed-Exact past config env id new_slug e w x =
    let c = compensate-Exact past config env id new_slug w x in ground (arith, c, x)

commit_slug-Exact :
    (past : List Tenant) (config : ServiceConfig) (env : Env) (t : Tenant) (new_slug : Text)
    (w : World)
    → Exact past w
    → Exact past (commit_slug config env t new_slug w).0
unfolding commit_slug
commit_slug-Exact past config env t new_slug w x =
    let updated = update_slug env.now t.id new_slug w.tenants in
    elim (Result-cases (stored (env.fails update_slug_row) updated)) [
      | inl (e, failed) ↦
          rw (commit_slug, failed) (commit_failed-Exact past config env t.id new_slug e w x)
      | inr (rows, done) ↦
          let (e, _, _) =
            update_slug_lem env.now t.id new_slug w.tenants rows
              (stored_ok (env.fails update_slug_row) updated rows done) in
          let w1 = record w { tenants = rows } in
          let x1 =
            rows_changed-Exact past (is_id t.id) (rename_row env.now new_slug) w rows
              (λ r. (refl, refl)) e x in
          rw (commit_slug, done)
            (Exact-Framed past w1 (finish_rename env t new_slug w1)
              (finish_rename-Framed env t new_slug w1) x1)
    ]

run_saga-Exact :
    (past : List Tenant) (config : ServiceConfig) (env : Env) (t : Tenant) (new_slug : Text)
    (w : World)
    → Exact past w
    → Exact past (run_saga config env t new_slug w).0
unfolding run_saga call
run_saga-Exact past config env t new_slug w x =
    let w1 = call (create_topic_acls new_slug) w in
    let specs = infra_topic_specs config in
    let (w2, created) = create_new_topics config env new_slug specs w1 in
    let x2 = Exact-Framed past w1 w2 (create_new_topics-Framed config env new_slug specs w1) x in
    elim (Bool-cases (env.kafka_fails (create_topic_acls new_slug))) [
      | inl fails ↦ rw (run_saga, fails) x
      | inr runs ↦ elim (Result-cases created) [
        | inl (e, failed) ↦ rw (run_saga, runs, failed) x2
        | inr (u, done) ↦
            rw (run_saga, runs, done) (commit_slug-Exact past config env t new_slug w2 x2)
      ]
    ]

pub lock_ok :
    (r : Result ServiceError (List Tenant)) (rows : List Tenant)
    → lock_result r ≡ ok rows
    → r ≡ ok rows
lock_ok (ok a) rows h = ground (arith, h)
lock_ok (err e) rows h = absurd (ground arith)

lock_slug-Exact :
    (past : List Tenant) (config : ServiceConfig) (env : Env) (t : Tenant) (new_slug : Text)
    (w : World)
    → Exact past w
    → Exact past (lock_slug config env t new_slug w).0
unfolding lock_slug
lock_slug-Exact past config env t new_slug w x =
    let existing = stored (env.fails get_tenant_by_new_slug) (get_by_slug new_slug w.tenants) in
    let set = set_rename_state t.id rename_pending t.slug w.tenants in
    let lock = stored (env.fails set_rename_row) set in
    elim (Bool-cases (is_taken existing)) [
      | inl taken ↦ rw (lock_slug, taken) x
      | inr free ↦ elim (Result-cases (lock_result lock)) [
        | inl (e, failed) ↦ rw (lock_slug, free, failed) x
        | inr (rows, done) ↦
            let e =
              set_rename_state_lem t.id rename_pending t.slug w.tenants rows
                (stored_ok (env.fails set_rename_row) set rows (lock_ok lock rows done)) in
            let w1 = record w { tenants = rows } in
            let x1 =
              rows_changed-Exact past (λ r. is_id t.id r && not (is_pending r.slug_rename_state))
                (locked rename_pending t.slug) w rows (λ r. (refl, refl)) e x in
            rw (lock_slug, free, done) (run_saga-Exact past config env t new_slug w1 x1)
      ]
    ]

rename_found-Exact :
    (past : List Tenant) (config : ServiceConfig) (env : Env) (t : Tenant) (new_slug : Text)
    (w : World)
    → Exact past w
    → Exact past (rename_found config env t new_slug w).0
unfolding rename_found
rename_found-Exact past config env t new_slug w x =
    let (w1, held) = pass_hold config env t w in
    let x1 = pass_hold-Exact past config env t w x in
    elim (Bool-cases (t.status == status_active)) [
      | inr idle ↦ rw (rename_found, idle) x
      | inl active ↦ elim (Bool-cases (new_slug == t.slug)) [
        | inl same ↦ rw (rename_found, active, same) x
        | inr moved ↦ elim (Result-cases held) [
          | inl (e, refused) ↦ rw (rename_found, active, moved, refused) x1
          | inr (u, passed) ↦
              rw (rename_found, active, moved, passed)
                (lock_slug-Exact past config env t new_slug w1 x1)
        ]
      ]
    ]

pub rename_tenant-Exact :
    (past : List Tenant) (config : ServiceConfig) (env : Env) (slug new_slug : Text) (w : World)
    → Exact past w
    → Exact past (rename_tenant config env slug new_slug w).0
unfolding rename_tenant
rename_tenant-Exact past config env slug new_slug w x =
    let read = stored (env.fails get_tenant) (get_by_slug slug w.tenants) in
    elim (Result-cases (check_new_slug new_slug)) [
      | inl (e, refused) ↦ rw (rename_tenant, refused) x
      | inr (u, valid) ↦ elim (Result-cases read) [
        | inl (e, failed) ↦ rw (rename_tenant, valid, failed) x
        | inr (t, found) ↦
            rw (rename_tenant, valid, found) (rename_found-Exact past config env t new_slug w x)
      ]
    ]
