-- ===== src/Tenants/DeletionGauge.antt =====
-- The gauge of active tenants when tenants are deprovisioned, deleted by force or swept.
use sukko.Common.{
  ℕ, ◌+◌, ◌*◌, ◌≡◌, refl, sym, ap, subst, ◌∙◌, inl, inr, Bool, not, ◌&&◌, some, List, [], ◌∷◌, ok,
  err, arith, ◌==◌, nat_eq, list_eq, Distinct, Elem, Bool-cases, Result-cases, any,
}
use sukko.Common.Int.{pos}
use sukko.Common.Text.{Text, codes}
use sukko.Tenants.{status_active, status_deprovisioning, status_deleted, status_eq, Tenant}
use sukko.Tenants.Store.{
  update_where, update_status, set_deprovision_at, count_active, count_where, get_by_slug,
  is_active_tenant,
}
use sukko.Tenants.Service.{
  ServiceConfig, ServiceError, update_status_row, set_deprovision_row, get_tenant, Env, World,
  stored, dec_active_tenants,
}
use sukko.Tenants.Rows.{ids, on_id, ids-update_where}
use sukko.Tenants.Frames.{
  announce_tenant-Framed, clean_up-Framed, revoke_keys-Framed, set_retentions-Framed,
}
use sukko.Tenants.Create.{announce_tenant}
use sukko.Tenants.Deletion.{
  revoke_keys, set_deadline, cleanup_suffixes, set_retentions, clean_up, force_delete_tenant,
  dec_if_active, begin_deprovision, force_deprovision, deprovision_found, deprovision_tenant,
  ms_per_day,
}
use sukko.Tenants.Stages.{stage_of-update_where}
use sukko.Tenants.Gauge.{Exact, Later, Exact-Framed, stored_ok, moved-Exact, read-Elem}

-- A statement that changes no status and no identifier keeps both counts.
pub count-update_where_same :
    (p test : Tenant → Bool) (change : Tenant → Tenant) (rows : List Tenant)
    → ((t : Tenant) → p (change t) ≡ p t)
    → count_where p (update_where test change rows) ≡ count_where p rows
unfolding count_where update_where
count-update_where_same p test change [] h = refl
count-update_where_same p test change (t ∷ rows) h =
    ground (arith, h t, count-update_where_same p test change rows h)

abbrev pub with_deadline : ℕ → Tenant → Tenant
with_deadline at t = record t { deprovision_at = some at }

set_deadline-Exact :
    (past : List Tenant) (config : ServiceConfig) (env : Env) (id : Text) (w : World)
    → Exact past w
    → Exact past (set_deadline config env id w)
unfolding set_deadline set_deprovision_at count_active
set_deadline-Exact past config env id w x =
    let at = env.now + config.deprovision_grace_days * ms_per_day in
    let guard : Tenant → Bool = λ t. t.status == status_deprovisioning in
    let rows = update_where (on_id id guard) (with_deadline at) w.tenants in
    elim (Bool-cases (env.fails set_deprovision_row)) [
      | inl fails ↦ rw (fails, set_deadline) x
      | inr runs ↦ elim (Bool-cases (any (on_id id guard) w.tenants)) [
        | inr miss ↦ rw (runs, set_deadline, miss) x
        | inl hit ↦
            rw (runs, set_deadline, hit)
              (
                subst Distinct
                    (sym
                      (ids-update_where (on_id id guard) (with_deadline at) w.tenants (λ t. refl)))
                    x.0,
                x.1
                    ∙ ap pos (
                        sym (
                          count-update_where_same is_active_tenant (on_id id guard)
                            (with_deadline at) w.tenants (λ t. refl))),
                λ other. omega (
                  arith,
                  x.2 other,
                  stage_of-update_where (on_id id guard) (with_deadline at) w.tenants other
                      (λ t. refl) (λ t h. omega arith),
                ),
              )
      ]
    ]

dec_if_active-Exact :
    (past : List Tenant) (t : Tenant) (w : World)
    → Distinct (ids w.tenants)
      × ((dec_if_active t w).active_tenants ≡ pos (count_active w.tenants))
      × Later past w.tenants
    → Exact past (dec_if_active t w)
unfolding dec_active_tenants
dec_if_active-Exact past t w h = elim (Bool-cases (t.status == status_active)) [
  | inl active ↦ rw active (h.0, ground (arith, h.1, active), h.2)
  | inr idle ↦ rw idle (h.0, ground (arith, h.1, idle), h.2)
]

begin_deprovision-Exact :
    (past : List Tenant) (config : ServiceConfig) (env : Env) (t : Tenant) (w : World)
    → Exact past w
    → Elem t w.tenants
    → Exact past (begin_deprovision config env t w).0
unfolding begin_deprovision dec_active_tenants
begin_deprovision-Exact past config env t w x m =
    let updated = update_status env.now t.id status_deprovisioning w.tenants in
    elim (Result-cases (stored (env.fails update_status_row) updated)) [
      | inl (e, failed) ↦ rw (begin_deprovision, failed) x
      | inr (rows, done) ↦
          let action = codes "deprovision_tenant" in
          let w1 = dec_if_active t (record w { tenants = rows }) in
          let w2 = revoke_keys env t.id w1 in
          let w3 = set_deadline config env t.id w2 in
          let suffixes = cleanup_suffixes config env t.id w3 in
          let w4 = set_retentions config t.slug suffixes w3 in
          let moved =
            moved-Exact past env.now status_deprovisioning t w rows w1.active_tenants x m
              (stored_ok (env.fails update_status_row) updated rows done)
              (λ n counted. ground (arith, x.1, counted)) in
          let x1 = dec_if_active-Exact past t (record w { tenants = rows }) moved in
          let x3 =
            set_deadline-Exact past config env t.id w2
              (Exact-Framed past w1 w2 (revoke_keys-Framed env t.id w1) x1) in
          let x4 = Exact-Framed past w3 w4 (set_retentions-Framed config t.slug suffixes w3) x3 in
          rw (begin_deprovision, done)
            (Exact-Framed past w4 (announce_tenant env t.id action w4)
              (announce_tenant-Framed env t.id action w4) x4)
    ]

pub force_delete-failed :
    (config : ServiceConfig) (env : Env) (t : Tenant) (w : World) (e : ServiceError)
    → stored (env.fails update_status_row) (update_status env.now t.id status_deleted w.tenants)
      ≡ err e
    → force_delete_tenant config env t w ≡ (w, err e)
unfolding force_delete_tenant
force_delete-failed config env t w e h = rw (force_delete_tenant, h) refl

pub force_delete-done :
    (config : ServiceConfig) (env : Env) (t : Tenant) (w : World) (rows : List Tenant)
    → stored (env.fails update_status_row) (update_status env.now t.id status_deleted w.tenants)
      ≡ ok rows
    → force_delete_tenant config env t w ≡ (
      clean_up config env t (cleanup_suffixes config env t.id w) (record w { tenants = rows }),
      ok tt,
    )
unfolding force_delete_tenant
force_delete-done config env t w rows h = rw (force_delete_tenant, h) refl

force_deprovision-Exact :
    (past : List Tenant) (config : ServiceConfig) (env : Env) (t : Tenant) (w : World)
    → Exact past w
    → Elem t w.tenants
    → Exact past (force_deprovision config env t w).0
unfolding force_deprovision
force_deprovision-Exact past config env t w x m =
    let updated = update_status env.now t.id status_deleted w.tenants in
    elim (Result-cases (stored (env.fails update_status_row) updated)) [
      | inl (e, failed) ↦
          let kept = force_delete-failed config env t w e failed in
          let runs : (force_deprovision config env t w).0 ≡ w = ground (arith, kept) in
          subst (Exact past) (sym runs) x
      | inr (rows, done) ↦
          let suffixes = cleanup_suffixes config env t.id w in
          let w0 = record w { tenants = rows } in
          let w1 = clean_up config env t suffixes w0 in
          let framed = clean_up-Framed config env t suffixes w0 in
          let moved =
            moved-Exact past env.now status_deleted t w rows (dec_if_active t w1).active_tenants x m
              (stored_ok (env.fails update_status_row) updated rows done)
              (λ n counted. ground (arith, x.1, counted, framed.1)) in
          let deleted = force_delete-done config env t w rows done in
          let runs : (force_deprovision config env t w).0 ≡ dec_if_active t w1 =
            ground (arith, deleted) in
          let counted =
            subst
              (λ r.
                Distinct (ids r)
                × ((dec_if_active t w1).active_tenants ≡ pos (count_active r))
                × Later past r)
              (sym framed.0) moved in
          subst (Exact past) (sym runs) (dec_if_active-Exact past t w1 counted)
    ]

deprovision_found-Exact :
    (past : List Tenant) (config : ServiceConfig) (env : Env) (t : Tenant) (force : Bool)
    (w : World)
    → Exact past w
    → Elem t w.tenants
    → Exact past (deprovision_found config env t force w).0
unfolding deprovision_found
deprovision_found-Exact past config env t force w x m =
    elim (Bool-cases (t.status == status_deleted)) [
      | inl gone ↦ rw (deprovision_found, gone) x
      | inr there ↦ elim (Bool-cases (not force && t.status == status_deprovisioning)) [
        | inl again ↦ rw (deprovision_found, there, again) x
        | inr first ↦ elim (Bool-cases force) [
          | inl forced ↦
              rw (deprovision_found, there, first, forced)
                (force_deprovision-Exact past config env t w x m)
          | inr graced ↦
              rw (deprovision_found, there, first, graced)
                (begin_deprovision-Exact past config env t w x m)
        ]
      ]
    ]

pub deprovision_tenant-Exact :
    (past : List Tenant) (config : ServiceConfig) (env : Env) (slug : Text) (force : Bool)
    (w : World)
    → Exact past w
    → Exact past (deprovision_tenant config env slug force w).0
unfolding deprovision_tenant
deprovision_tenant-Exact past config env slug force w x =
    elim (Result-cases (stored (env.fails get_tenant) (get_by_slug slug w.tenants))) [
      | inl (e, failed) ↦ rw (failed, deprovision_tenant) x
      | inr (t, read) ↦
          rw (read, deprovision_tenant)
            (deprovision_found-Exact past config env t force w x
              (read-Elem (env.fails get_tenant) slug w.tenants t read))
    ]
