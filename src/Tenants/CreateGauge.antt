-- ===== src/Tenants/CreateGauge.antt =====
-- The gauge of active tenants when a tenant is created or patched.
use sukko.Common.{
  ◌≡◌, refl, sym, ap, subst, ◌∙◌, inl, inr, Bool, true, false, not, ◌&&◌, List, [], ◌∷◌, ok, arith,
  ◌==◌, nat_eq, list_eq, eq_iff, contains, Distinct, Bool-cases, Result-cases, any, Option-cases,
}
use sukko.Common.Int.{pos}
use sukko.Common.Text.{Text, codes}
use sukko.Tenants.{status_active, status_deleted, status_eq, Tenant, validate_tenant}
use sukko.Tenants.Store.{
  update_where, update, create_row, count_active, count_where, is_id, is_active_tenant, get_by_slug,
}
use sukko.Tenants.Service.{
  ServiceConfig, invalid_tenant, create_tenant_row, update_tenant_row, get_tenant, Env, World,
  stored, call, emit_event, audit_log, inc_active_tenants,
}
use sukko.Tenants.Rows.{ids, ids-update_where}
use sukko.Tenants.Frames.{Framed, provision_topics-Framed, finish_tenant-Framed, audit_log-Framed}
use sukko.Tenants.Create.{
  CreateTenantRequest, validated, tenant_of, admit_tenant, undo_topic, provision_topics,
  insert_tenant, finish_tenant, create_tenant,
}
use sukko.Tenants.LifeCycle.{UpdateTenantRequest, patched, update_found, update_tenant}
use sukko.Tenants.Stages.{stage_of, stage_of_absent, stage_of-update_where}
use sukko.Tenants.Gauge.{Exact, Exact-Framed, stored_ok}
use sukko.Tenants.DeletionGauge.{count-update_where_same}

any-ids : (id : Text) (rows : List Tenant) → any (is_id id) rows ≡ contains (ids rows) id
unfolding contains
any-ids id [] = refl
any-ids id (t ∷ rows) = ground (arith, any-ids id rows)

pub create_row_lem :
    (t : Tenant) (rows rows' : List Tenant)
    → create_row t rows ≡ ok rows'
    → (rows' ≡ t ∷ rows)
      × (contains (ids rows) t.id ≡ false)
      × (any (λ other. other.slug == t.slug) rows ≡ false)
unfolding create_row
create_row_lem t rows rows' h = ground (arith, h, any-ids t.id rows)

undo_topic-Framed : (here : Bool) (name : Text) (w : World) → Framed w (undo_topic here name w)
unfolding call
undo_topic-Framed true name w = (refl, refl)
undo_topic-Framed false name w = (refl, refl)

insert_tenant-Exact :
    (past : List Tenant) (config : ServiceConfig) (env : Env) (req : CreateTenantRequest)
    (here : Bool × Bool) (w : World)
    → Exact past w
    → Exact past (insert_tenant config env (tenant_of env req) here w).0
unfolding insert_tenant inc_active_tenants count_active count_where tenant_of
insert_tenant-Exact past config env req (a, b) w x =
    let t = tenant_of env req in
    elim (Result-cases (stored (env.fails create_tenant_row) (create_row t w.tenants))) [
      | inl (e, failed) ↦
          rw (insert_tenant, failed) ground (arith, x, undo_topic-Framed a, undo_topic-Framed b)
      | inr (rows, done) ↦
          let (e, fresh, _) =
            create_row_lem t w.tenants rows
              (stored_ok (env.fails create_tenant_row) (create_row t w.tenants) rows done) in
          rw (insert_tenant, done, e)
            (
              (fresh, x.0),
              ground (arith, x.1),
              λ id. ground (
                arith,
                x.2 id,
                eq_iff t.id id,
                stage_of_absent t.id w.tenants fresh,
                ap (λ i. stage_of i w.tenants),
              ),
            )
    ]

pub create_tenant-Exact :
    (past : List Tenant) (config : ServiceConfig) (env : Env) (req : CreateTenantRequest)
    (w : World)
    → Exact past w
    → Exact past (create_tenant config env req w).0
unfolding create_tenant
create_tenant-Exact past config env req w x =
    let t = tenant_of env req in
    let (w1, topics) = provision_topics config env req.slug w in
    let x1 = Exact-Framed past w w1 (provision_topics-Framed config env req.slug w) x in
    elim (Result-cases (admit_tenant config env req w.tenants)) [
      | inl (e, refused) ↦ rw (create_tenant, refused) x
      | inr (u, admitted) ↦ elim (Result-cases topics) [
        | inl (e, failed) ↦ rw (create_tenant, admitted, failed) x1
        | inr (here, ready) ↦
            let (w2, inserted) = insert_tenant config env t here w1 in
            let x2 = insert_tenant-Exact past config env req here w1 x1 in
            elim (Result-cases inserted) [
              | inl (e, failed) ↦ rw (create_tenant, admitted, ready, failed) x2
              | inr (v, done) ↦
                  rw (create_tenant, admitted, ready, done)
                    (Exact-Framed past w2 (finish_tenant config env t req.public_key w2).0
                      (finish_tenant-Framed config env t req.public_key w2) x2)
            ]
      ]
    ]

-- A statement that changes neither the identifier nor the status of a row.
pub rows_changed-Exact :
    (past : List Tenant) (test : Tenant → Bool) (change : Tenant → Tenant) (w : World)
    (rows : List Tenant)
    → ((t : Tenant) → ((change t).id ≡ t.id) × ((change t).status ≡ t.status))
    → rows ≡ update_where test change w.tenants
    → Exact past w
    → Exact past (record w { tenants = rows })
unfolding count_active
rows_changed-Exact past test change w rows h e x = rw e (
  subst Distinct (sym (ids-update_where test change w.tenants (λ t. (h t).0))) x.0,
  x.1
      ∙ ap pos (
          sym (
            count-update_where_same is_active_tenant test change w.tenants
              (λ t. ap (λ u. u == status_active) (h t).1))),
  λ id. omega (
    arith,
    x.2 id,
    stage_of-update_where test change w.tenants id (λ t. (h t).0)
        (λ t hit. rw ((h t).1) (omega arith)),
  ),
)

abbrev pub with_patch : Tenant → Tenant → Tenant
with_patch new t = record t {
  name = new.name;
  consumer_type = new.consumer_type;
  metadata = new.metadata;
}

abbrev pub of_live : Tenant → Tenant → Bool
of_live new t = is_id new.id t && not (t.status == status_deleted)

update_lem :
    (new : Tenant) (rows rows' : List Tenant)
    → update new rows ≡ ok rows'
    → rows' ≡ update_where (of_live new) (with_patch new) rows
unfolding update
update_lem new rows rows' h = ground (arith, h)

update_found-Exact :
    (past : List Tenant) (env : Env) (t : Tenant) (w : World)
    → Exact past w
    → Exact past (update_found env t w).0
unfolding update_found emit_event
update_found-Exact past env t w x =
    elim (Result-cases (validated invalid_tenant (validate_tenant t))) [
      | inl (e, refused) ↦ rw (update_found, refused) x
      | inr (u, valid) ↦
          elim (Result-cases (stored (env.fails update_tenant_row) (update t w.tenants))) [
            | inl (e, failed) ↦ rw (update_found, valid, failed) x
            | inr (rows, done) ↦
                let e =
                  update_lem t w.tenants rows
                    (stored_ok (env.fails update_tenant_row) (update t w.tenants) rows done) in
                let w1 = record w { tenants = rows } in
                let x1 =
                  rows_changed-Exact past (of_live t) (with_patch t) w rows (λ r. (refl, refl)) e
                    x in
                let action = codes "update_tenant" in
                rw (update_found, valid, done)
                  (Exact-Framed past w1 (audit_log env t.id action w1)
                    (audit_log-Framed env t.id action w1) x1)
          ]
    ]

pub update_tenant-Exact :
    (past : List Tenant) (env : Env) (slug : Text) (req : UpdateTenantRequest) (w : World)
    → Exact past w
    → Exact past (update_tenant env slug req w).0
unfolding update_tenant
update_tenant-Exact past env slug req w x =
    elim (Result-cases (stored (env.fails get_tenant) (get_by_slug slug w.tenants))) [
      | inl (e, failed) ↦ rw (update_tenant, failed) x
      | inr (t, read) ↦ elim (Bool-cases (t.status == status_deleted)) [
        | inl gone ↦ rw (update_tenant, read, gone) x
        | inr there ↦ elim (Option-cases req.slug) [
          | inl kept ↦
              rw (update_tenant, read, there, kept)
                (update_found-Exact past env (patched req t) w x)
          | inr (s, moved) ↦ rw (update_tenant, read, there, moved) x
        ]
      ]
    ]
