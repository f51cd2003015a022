-- ===== src/Tenants/Renaming.antt =====
-- RenameTenant: what a rename that succeeds leaves, and what its lock and its compensation do when
-- another call works on the same slug.
use sukko.Common.{
  ℕ, ◌+◌, ◌<◌, ◌≡◌, ◌≢◌, refl, sym, ap, subst, ◌∙◌, inl, inr, true, not, ◌&&◌, ◌||◌, List, [],
  Result, ok, arith, ◌==◌, nat_eq, list_eq, eq_iff, eq_refl, Elem, Bool-cases, Result-cases,
}
use sukko.Common.Text.{Text}
use sukko.Tenants.{Tenant, status_active, status_eq, rename_pending}
use sukko.Tenants.Store.{
  update_where, get_by_slug, is_id, is_none, rename_row, update_slug, set_rename_state, is_pending,
  matches_with_grace,
}
use sukko.Tenants.Service.{
  ServiceConfig, ServiceError, get_tenant, get_tenant_by_new_slug, set_rename_row, update_slug_row,
  create_topic_acls, Env, World, stored, call, infra_topic_specs,
}
use sukko.Tenants.Rename.{
  pass_hold, is_taken, lock_result, create_new_topics, commit_failed, finish_rename, commit_slug,
  run_saga, lock_slug, rename_found, rename_tenant, check_new_slug, claim_matches,
}
use sukko.Tenants.Rows.{get_by_slug-Elem}
use sukko.Tenants.Frames.{create_new_topics-Framed, finish_rename-Framed}
use sukko.Tenants.Gauge.{stored_ok}
use sukko.Tenants.RenameGauge.{locked, update_slug_lem, set_rename_state_lem, lock_ok}
use sukko.Tenants.Kin.{Elem-update_where, Kin, Kin-update_where, pass_hold-Kin}

-- The row of a tenant renamed at `now`: found under both slugs while the hold period lasts.
pub record Renamed (config : ServiceConfig) (now : ℕ) (t : Tenant) (new : Text) (w : World)
    : Type 0 where
  pub row : Tenant
  pub member : Elem row w.tenants
  pub same_id : row.id ≡ t.id
  pub new_slug : row.slug ≡ new
  pub claims :
      (later : ℕ) (claim : Text)
      → later < now + config.slug_rename_topic_hold_period
      → claim_matches later config.slug_rename_topic_hold_period claim row
        ≡ (claim == new || claim == t.slug)
  pub found :
      (later : ℕ)
      → later < now + config.slug_rename_topic_hold_period
      → (matches_with_grace later config.slug_rename_topic_hold_period new row ≡ true)
        × (matches_with_grace later config.slug_rename_topic_hold_period t.slug row ≡ true)

-- What was known of the tenant when it was read.
abbrev pub Live : Tenant → Type 0
Live t = (t.status ≡ status_active) × (is_none t.deleted_at ≡ true) × (t.slug ≢ [])

commit_done :
    (config : ServiceConfig) (env : Env) (t : Tenant) (new : Text) (w : World) (rows : List Tenant)
    → stored (env.fails update_slug_row) (update_slug env.now t.id new w.tenants) ≡ ok rows
    → commit_slug config env t new w
      ≡ (finish_rename env t new (record w { tenants = rows }), ok tt)
unfolding commit_slug
commit_done config env t new w rows h = rw (commit_slug, h) refl

commit_slug-Renamed :
    (config : ServiceConfig) (env : Env) (t : Tenant) (new : Text) (w : World)
    → Live t
    → Kin t w.tenants
    → (commit_slug config env t new w).1 ≡ ok tt
    → Renamed config env.now t new (commit_slug config env t new w).0
unfolding commit_slug commit_failed claim_matches matches_with_grace
commit_slug-Renamed config env t new w live k h =
    let updated = update_slug env.now t.id new w.tenants in
    elim (Result-cases (stored (env.fails update_slug_row) updated)) [
      | inl (e, failed) ↦ absurd (ground (arith, failed, h))
      | inr (rows, done) ↦
          let (e, _, _) =
            update_slug_lem env.now t.id new w.tenants rows
              (stored_ok (env.fails update_slug_row) updated rows done) in
          let r = k.row in
          let hit : is_id t.id r ≡ true = ground (arith, k.same_id, eq_iff r.id t.id) in
          let m = Elem-update_where (is_id t.id) (rename_row env.now new) r w.tenants k.member in
          let w1 = record w { tenants = rows } in
          let framed = finish_rename-Framed env t new w1 in
          let whole : (commit_slug config env t new w).0.tenants
              ≡ update_where (is_id t.id) (rename_row env.now new) w.tenants =
            ap (λ x. x.tenants) (ap (λ x. x.0) (commit_done config env t new w rows done))
            ∙ framed.0
            ∙ e in
          record {
            row = rename_row env.now new r;
            member = subst (Elem (rename_row env.now new r)) (sym whole) (rw hit at m);
            same_id = k.same_id;
            new_slug = refl;
            claims = λ later claim before. ground (
              arith,
              before,
              live,
              k.same_slug,
              k.same_status,
              eq_iff r.slug [],
              eq_iff claim new,
            );
            found = λ later before. ground (
              arith,
              before,
              live,
              k.same_slug,
              k.same_status,
              k.same_deletion,
              eq_refl new,
              eq_refl t.slug,
            );
          }
    ]

-- A step that has become another one.
carry_rename :
    (config : ServiceConfig) (env : Env) (t : Tenant) (new : Text)
    (o o' : World × Result ServiceError (Unit {0}))
    → o ≡ o'
    → (o'.1 ≡ ok tt → Renamed config env.now t new o'.0)
    → o.1 ≡ ok tt
    → Renamed config env.now t new o.0
carry_rename config env t new o o' e f h =
    subst (λ x. Renamed config env.now t new x.0) (sym e) (f (ap (λ x. x.1) (sym e) ∙ h))

run_saga-Renamed :
    (config : ServiceConfig) (env : Env) (t : Tenant) (new : Text) (w : World)
    → Live t
    → Kin t w.tenants
    → (run_saga config env t new w).1 ≡ ok tt
    → Renamed config env.now t new (run_saga config env t new w).0
unfolding run_saga call
run_saga-Renamed config env t new w live k h =
    let w1 = call (create_topic_acls new) w in
    let specs = infra_topic_specs config in
    let (w2, created) = create_new_topics config env new specs w1 in
    let framed = create_new_topics-Framed config env new specs w1 in
    elim (Bool-cases (env.kafka_fails (create_topic_acls new))) [
      | inl fails ↦ absurd (ground (arith, fails, h))
      | inr runs ↦ elim (Result-cases created) [
        | inl (e, failed) ↦ absurd (ground (arith, runs, failed, h))
        | inr (u, done) ↦
            carry_rename config env t new (run_saga config env t new w)
              (commit_slug config env t new w2) (ground (arith, runs, done))
              (commit_slug-Renamed config env t new w2 live (subst (Kin t) (sym framed.0) k)) h
      ]
    ]

lock_slug-Renamed :
    (config : ServiceConfig) (env : Env) (t : Tenant) (new : Text) (w : World)
    → Live t
    → Kin t w.tenants
    → (lock_slug config env t new w).1 ≡ ok tt
    → Renamed config env.now t new (lock_slug config env t new w).0
unfolding lock_slug
lock_slug-Renamed config env t new w live k h =
    let existing = stored (env.fails get_tenant_by_new_slug) (get_by_slug new w.tenants) in
    let set = set_rename_state t.id rename_pending t.slug w.tenants in
    let lock = stored (env.fails set_rename_row) set in
    elim (Bool-cases (is_taken existing)) [
      | inl taken ↦ absurd (ground (arith, taken, h))
      | inr free ↦ elim (Result-cases (lock_result lock)) [
        | inl (e, failed) ↦ absurd (ground (arith, free, failed, h))
        | inr (rows, done) ↦
            let e =
              set_rename_state_lem t.id rename_pending t.slug w.tenants rows
                (stored_ok (env.fails set_rename_row) set rows (lock_ok lock rows done)) in
            let k1 =
              Kin-update_where (λ r. is_id t.id r && not (is_pending r.slug_rename_state))
                (locked rename_pending t.slug) t w.tenants rows (λ r. (refl, refl, refl, refl)) e
                k in
            let w1 = record w { tenants = rows } in
            carry_rename config env t new (lock_slug config env t new w)
              (run_saga config env t new w1) (ground (arith, free, done))
              (run_saga-Renamed config env t new w1 live k1) h
      ]
    ]

rename_found-Renamed :
    (config : ServiceConfig) (env : Env) (t : Tenant) (new : Text) (w : World)
    → is_none t.deleted_at ≡ true
    → t.slug ≢ []
    → Kin t w.tenants
    → (rename_found config env t new w).1 ≡ ok tt
    → Renamed config env.now t new (rename_found config env t new w).0
unfolding rename_found
rename_found-Renamed config env t new w there named k h =
    let (w1, held) = pass_hold config env t w in
    elim (Bool-cases (t.status == status_active)) [
      | inr idle ↦ absurd (ground (arith, idle, h))
      | inl active ↦ elim (Bool-cases (new == t.slug)) [
        | inl same ↦ absurd (ground (arith, active, same, h))
        | inr moved ↦ elim (Result-cases held) [
          | inl (e, refused) ↦ absurd (ground (arith, active, moved, refused, h))
          | inr (u, passed) ↦
              carry_rename config env t new (rename_found config env t new w)
                (lock_slug config env t new w1) (ground (arith, active, moved, passed))
                (lock_slug-Renamed config env t new w1 (ground (arith, active), there, named)
                  (pass_hold-Kin config env t w k))
                h
        ]
      ]
    ]

-- A rename that succeeds gives the tenant that was read the new slug, and until the hold period is
-- over the tenant's row is selected, and a token's claim is accepted, for the new slug and for the
-- old one; a claim of a third slug is not accepted. (Slugs in the table are not empty.)
pub rename_tenant-Renamed :
    (config : ServiceConfig) (env : Env) (slug new : Text) (t : Tenant) (w : World)
    → stored (env.fails get_tenant) (get_by_slug slug w.tenants) ≡ ok t
    → t.slug ≢ []
    → (rename_tenant config env slug new w).1 ≡ ok tt
    → Renamed config env.now t new (rename_tenant config env slug new w).0
unfolding rename_tenant
rename_tenant-Renamed config env slug new t w read named h =
    let (member, _, there) =
      get_by_slug-Elem slug w.tenants t
        (stored_ok (env.fails get_tenant) (get_by_slug slug w.tenants) t read) in
    let k : Kin t w.tenants = record {
      row = t;
      member = member;
      same_id = refl;
      same_slug = refl;
      same_status = refl;
      same_deletion = refl;
    } in
    elim (Result-cases (check_new_slug new)) [
      | inl (e, refused) ↦ absurd (ground (arith, refused, h))
      | inr (u, valid) ↦
          carry_rename config env t new (rename_tenant config env slug new w)
            (rename_found config env t new w) (ground (arith, valid, read))
            (rename_found-Renamed config env t new w there named k) h
    ]
