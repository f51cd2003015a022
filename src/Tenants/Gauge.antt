-- ===== src/Tenants/Gauge.antt =====
-- The gauge of active tenants and the identifiers, under each operation.
use sukko.Common.{
  ℕ, ◌+◌, ◌≤◌, ◌≡◌, sym, ap, subst, ◌∙◌, inl, inr, Bool, true, false, List, Result, ok, err, arith,
  ◌==◌, nat_eq, list_eq, Distinct, Elem, Bool-cases, Result-cases,
}
use sukko.Common.Int.{ℤ, pos, suc_ℤ, pred_ℤ}
use sukko.Common.Text.{Text, codes}
use sukko.Tenants.{TenantStatus, status_active, status_suspended, status_deleted, status_eq, Tenant}
use sukko.Tenants.Store.{StoreError, update_status, count_active, get_by_slug}
use sukko.Tenants.Service.{
  infra_topic_specs, ServiceConfig, update_status_row, get_tenant, Env, World, stored,
  inc_active_tenants, dec_active_tenants,
}
use sukko.Tenants.Rows.{ids, bit, get_by_slug-Elem}
use sukko.Tenants.Status.{status_changed}
use sukko.Tenants.Stages.{stage_of, stage_of-update_status}
use sukko.Tenants.Frames.{Framed, announce_tenant-Framed, create_infra_topics-Framed}
use sukko.Tenants.Create.{announce_tenant}
use sukko.Tenants.LifeCycle.{
  suspend_found, suspend_tenant, create_infra_topics, reactivate_found, reactivate_tenant,
}

-- No tenant is at an earlier stage than in the past.
abbrev pub Later : List Tenant → List Tenant → Type 0
Later past rows = (id : Text) → stage_of id past ≤ stage_of id rows

-- The identifiers of the table are distinct, the gauge shows the number of active tenants, and no
-- tenant has gone back.
abbrev pub Exact : List Tenant → World → Type 0
Exact past w =
    Distinct (ids w.tenants)
    × (w.active_tenants ≡ pos (count_active w.tenants))
    × Later past w.tenants

pub Exact-Framed : (past : List Tenant) (w w' : World) → Framed w w' → Exact past w → Exact past w'
Exact-Framed past w w' (rows, gauge) (d, e, l) = (
  subst (λ r. Distinct (ids r)) (sym rows) d,
  gauge ∙ e ∙ ap (λ r. pos (count_active r)) (sym rows),
  subst (Later past) (sym rows) l,
)

pub stored_ok :
    {A : Type 0} (fails : Bool) (r : Result StoreError A) (a : A) → stored fails r ≡ ok a → r ≡ ok a
stored_ok true r a h = absurd (ground arith)
stored_ok false (ok b) a h = ground (arith, h)
stored_ok false (err e) a h = absurd (ground arith)

-- The gauge after the change of a status, for each way the count moves.
gauge_moved :
    (old new : ℕ) (before after : Bool)
    → new + bit before ≡ old + bit after
    → (before ≡ true → after ≡ false → pred_ℤ (pos old) ≡ pos new)
      × (before ≡ false → after ≡ true → suc_ℤ (pos old) ≡ pos new)
      × (before ≡ false → after ≡ false → pos old ≡ pos new)
gauge_moved old new before after h =
    (λ b a. ground (arith, h, b, a), λ b a. ground (arith, h, b, a), λ b a. ground (arith, h, b, a))

-- A change of the status of the row that was read keeps the identifiers, and moves the gauge as the
-- count moves.
pub moved-Exact :
    (past : List Tenant) (now : ℕ) (to : TenantStatus) (t : Tenant) (w : World) (rows : List Tenant)
    (gauge : ℤ)
    → Exact past w
    → Elem t w.tenants
    → update_status now t.id to w.tenants ≡ ok rows
    → ((n : ℕ)
        → n + bit (t.status == status_active) ≡ count_active w.tenants + bit (to == status_active)
        → gauge ≡ pos n)
    → Distinct (ids rows) × (gauge ≡ pos (count_active rows)) × Later past rows
moved-Exact past now to t w rows gauge (d, e, l) m h moves =
    let (same, counted, can) = status_changed now to t w.tenants rows d m h in
    (
      subst Distinct (sym same) d,
      moves (count_active rows) counted,
      λ id. omega (arith, l id, stage_of-update_status now t.id to w.tenants rows id h),
    )

pub suspend_found-Exact :
    (past : List Tenant) (env : Env) (t : Tenant) (w : World)
    → Exact past w
    → Elem t w.tenants
    → Exact past (suspend_found env t w).0
unfolding suspend_found dec_active_tenants
suspend_found-Exact past env t w x m =
    let updated = update_status env.now t.id status_suspended w.tenants in
    elim (Bool-cases (t.status == status_deleted)) [
      | inl gone ↦ rw gone x
      | inr there ↦ elim (Bool-cases (t.status == status_active)) [
        | inr idle ↦ rw (there, idle) x
        | inl active ↦ elim (Result-cases (stored (env.fails update_status_row) updated)) [
          | inl (e, failed) ↦ rw (there, active, failed) x
          | inr (rows, done) ↦
              let w1 = dec_active_tenants (record w { tenants = rows }) in
              rw (there, active, done)
                (Exact-Framed past w1 (announce_tenant env t.id (codes "suspend_tenant") w1)
                  (announce_tenant-Framed env t.id (codes "suspend_tenant") w1)
                  (moved-Exact past env.now status_suspended t w rows w1.active_tenants x m
                    (stored_ok (env.fails update_status_row) updated rows done)
                    (λ n counted. ground (arith, x.1, active, counted))))
        ]
      ]
    ]

pub read-Elem :
    (fails : Bool) (slug : Text) (rows : List Tenant) (t : Tenant)
    → stored fails (get_by_slug slug rows) ≡ ok t
    → Elem t rows
read-Elem fails slug rows t h =
    (get_by_slug-Elem slug rows t (stored_ok fails (get_by_slug slug rows) t h)).0

pub suspend_tenant-Exact :
    (past : List Tenant) (env : Env) (slug : Text) (w : World)
    → Exact past w
    → Exact past (suspend_tenant env slug w).0
unfolding suspend_tenant
suspend_tenant-Exact past env slug w x =
    elim (Result-cases (stored (env.fails get_tenant) (get_by_slug slug w.tenants))) [
      | inl (e, failed) ↦ rw (failed, suspend_tenant) x
      | inr (t, read) ↦
          rw (read, suspend_tenant)
            (suspend_found-Exact past env t w x
              (read-Elem (env.fails get_tenant) slug w.tenants t read))
    ]

reactivate_found-Exact :
    (past : List Tenant) (config : ServiceConfig) (env : Env) (t : Tenant) (w : World)
    → Exact past w
    → Elem t w.tenants
    → Exact past (reactivate_found config env t w).0
unfolding reactivate_found inc_active_tenants
reactivate_found-Exact past config env t w x m =
    let updated = update_status env.now t.id status_active w.tenants in
    let specs = infra_topic_specs config in
    let w0 = create_infra_topics config t.slug specs w in
    let framed = create_infra_topics-Framed config t.slug specs w in
    elim (Bool-cases (t.status == status_deleted)) [
      | inl gone ↦ rw gone x
      | inr there ↦ elim (Bool-cases (t.status == status_suspended)) [
        | inr other ↦ rw (there, other) x
        | inl held ↦ elim (Result-cases (stored (env.fails update_status_row) updated)) [
          | inl (e, failed) ↦ rw (there, held, failed) (Exact-Framed past w w0 framed x)
          | inr (rows, done) ↦
              let w1 = inc_active_tenants (record w0 { tenants = rows }) in
              rw (there, held, done)
                (Exact-Framed past w1 (announce_tenant env t.id (codes "reactivate_tenant") w1)
                  (announce_tenant-Framed env t.id (codes "reactivate_tenant") w1)
                  (moved-Exact past env.now status_active t w rows w1.active_tenants x m
                    (stored_ok (env.fails update_status_row) updated rows done)
                    (λ n counted. ground (arith, framed.1, x.1, held, counted))))
        ]
      ]
    ]

pub reactivate_tenant-Exact :
    (past : List Tenant) (config : ServiceConfig) (env : Env) (slug : Text) (w : World)
    → Exact past w
    → Exact past (reactivate_tenant config env slug w).0
unfolding reactivate_tenant
reactivate_tenant-Exact past config env slug w x =
    elim (Result-cases (stored (env.fails get_tenant) (get_by_slug slug w.tenants))) [
      | inl (e, failed) ↦ rw (failed, reactivate_tenant) x
      | inr (t, read) ↦
          rw (read, reactivate_tenant)
            (reactivate_found-Exact past config env t w x
              (read-Elem (env.fails get_tenant) slug w.tenants t read))
    ]
