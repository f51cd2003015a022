-- ===== src/Tenants/SweepGauge.antt =====
-- The gauge of active tenants under a round of the sweeper, which does not touch it.
use sukko.Common.{
  ℕ, ◌≡◌, refl, sym, ap, subst, ◌∙◌, inl, inr, false, List, [], ◌∷◌, arith, nat_eq, list_eq,
  Distinct, Elem, Bool-cases, Result-cases, any, keep, All,
}
use sukko.Common.Int.{pos}
use sukko.Common.Text.{Text}
use sukko.Tenants.{status_deleted, status_eq, Tenant}
use sukko.Tenants.Store.{
  update_where, update_status, count_active, count_where, with_status, is_active_tenant, is_due,
  get_tenants_for_deletion,
}
use sukko.Tenants.Service.{ServiceConfig, update_status_row, list_deletions, Env, World, stored}
use sukko.Tenants.Rows.{ids, on_id, ids-update_where, any-on_id}
use sukko.Tenants.Status.{update_status_lem, with_status-status, comes_from}
use sukko.Tenants.Frames.{sweep_up-Framed}
use sukko.Tenants.Deletion.{sweep_up, delete_tenant, delete_tenants, process_deletions}
use sukko.Tenants.Stages.{stage_of-update_where, status_up}
use sukko.Tenants.Gauge.{Exact, Exact-Framed, stored_ok}

-- The tenant of the identifier is not active, if it is there.
abbrev pub Idle : List Tenant → Tenant → Type 0
Idle rows t = any (on_id t.id is_active_tenant) rows ≡ false

abbrev swept : ℕ → Text → List Tenant → List Tenant
swept now id rows =
    update_where (on_id id (comes_from status_deleted)) (with_status now status_deleted) rows

Idle-count :
    (now : ℕ) (t : Tenant) (rows : List Tenant)
    → Idle rows t
    → count_where is_active_tenant (swept now t.id rows) ≡ count_where is_active_tenant rows
unfolding update_where count_where
Idle-count now t [] h = refl
Idle-count now t (r ∷ rows) h =
    ground (arith, with_status-status now status_deleted r, Idle-count now t rows)

Idle-swept :
    (now : ℕ) (id : Text) (t : Tenant) (rows : List Tenant)
    → Idle rows t
    → Idle (swept now id rows) t
unfolding update_where
Idle-swept now id t [] h = refl
Idle-swept now id t (r ∷ rows) h =
    ground (arith, with_status-status now status_deleted r, Idle-swept now id t rows)

All-Idle :
    (now : ℕ) (id : Text) (due rows : List Tenant)
    → All (Idle rows) due
    → All (Idle (swept now id rows)) due
All-Idle now id [] rows h = tt
All-Idle now id (t ∷ due) rows h = (Idle-swept now id t rows h.0, All-Idle now id due rows h.1)

due-Idle :
    (now : ℕ) (all rows : List Tenant)
    → Distinct (ids all)
    → ((t : Tenant) → Elem t rows → Elem t all)
    → All (Idle all) (keep (is_due now) rows)
due-Idle now all [] d sub = tt
due-Idle now all (t ∷ rows) d sub =
    let rest = due-Idle now all rows d (λ r m. sub r (inr m)) in
    elim (Bool-cases (is_due now t)) [
      | inl due ↦
          rw due (any-on_id is_active_tenant t all d (sub t (inl refl)) ∙ ground (arith, due), rest)
      | inr other ↦ rw other rest
    ]

delete_tenant-Exact :
    (past : List Tenant) (config : ServiceConfig) (env : Env) (t : Tenant) (due : List Tenant)
    (w : World)
    → Exact past w
    → All (Idle w.tenants) (t ∷ due)
    → let w' = (delete_tenant config env t w).0 in Exact past w' × All (Idle w'.tenants) due
unfolding delete_tenant count_active
delete_tenant-Exact past config env t due w x h =
    let w1 = sweep_up config env t w in
    let framed = sweep_up-Framed config env t w in
    let x1 = Exact-Framed past w w1 framed x in
    let idle : All (Idle w1.tenants) (t ∷ due) =
      subst (λ r. All (Idle r) (t ∷ due)) (sym framed.0) h in
    let updated = update_status env.now t.id status_deleted w1.tenants in
    elim (Result-cases (stored (env.fails update_status_row) updated)) [
      | inl (e, failed) ↦ rw (delete_tenant, failed) (x1, idle.1)
      | inr (rows, done) ↦
          let (_, e) =
            update_status_lem env.now t.id status_deleted w1.tenants rows
              (stored_ok (env.fails update_status_row) updated rows done) in
          rw (delete_tenant, done, e)
            (
              (
                subst Distinct
                    (sym (
                      ids-update_where (on_id t.id (comes_from status_deleted))
                        (with_status env.now status_deleted) w1.tenants
                        (λ r. (with_status-status env.now status_deleted r).1)))
                    x1.0,
                x1.1 ∙ ap pos (sym (Idle-count env.now t w1.tenants idle.0)),
                λ id. omega (
                  arith,
                  x1.2 id,
                  stage_of-update_where (on_id t.id (comes_from status_deleted))
                      (with_status env.now status_deleted) w1.tenants id
                      (λ r. (with_status-status env.now status_deleted r).1)
                      (status_up env.now t.id status_deleted),
                ),
              ),
              All-Idle env.now t.id due w1.tenants idle.1,
            )
    ]

delete_tenants-Exact :
    (past : List Tenant) (config : ServiceConfig) (env : Env) (due : List Tenant) (w : World)
    → Exact past w
    → All (Idle w.tenants) due
    → Exact past (delete_tenants config env due w)
unfolding delete_tenants
delete_tenants-Exact past config env [] w x h = x
delete_tenants-Exact past config env (t ∷ due) w x h =
    let (x1, idle) = delete_tenant-Exact past config env t due w x h in
    delete_tenants-Exact past config env due (delete_tenant config env t w).0 x1 idle

pub process_deletions-Exact :
    (past : List Tenant) (config : ServiceConfig) (env : Env) (w : World)
    → Exact past w
    → Exact past (process_deletions config env w)
unfolding process_deletions get_tenants_for_deletion
process_deletions-Exact past config env w x = elim (Bool-cases (env.fails list_deletions)) [
  | inl fails ↦ rw (process_deletions, fails) x
  | inr runs ↦
      rw (process_deletions, runs)
        (delete_tenants-Exact past config env (get_tenants_for_deletion env.now w.tenants) w x
          (due-Idle env.now w.tenants w.tenants x.0 (λ t m. m)))
]
