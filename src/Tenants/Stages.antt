-- ===== src/Tenants/Stages.antt =====
-- How far a tenant is in its life: active and suspended tenants are at the same stage, and no
-- statement takes a tenant back to an earlier stage.
use sukko.Common.{
  ℕ, ◌≤◌, ◌≡◌, refl, inl, inr, Bool, true, false, List, [], ◌∷◌, ok, arith, if◌then◌else◌, ◌==◌,
  nat_eq, list_eq, contains, Bool-cases,
}
use sukko.Common.Text.{Text}
use sukko.Tenants.{
  TenantStatus, status_active, status_suspended, status_deprovisioning, status_deleted, status_eq,
  Tenant,
}
use sukko.Tenants.Store.{update_where, can_become, with_status, update_status}
use sukko.Tenants.Rows.{ids, on_id}
use sukko.Tenants.Status.{with_status-status, update_status_lem, comes_from}

abbrev pub stage : TenantStatus → ℕ
stage status_active = 1
stage status_suspended = 1
stage status_deprovisioning = 2
stage status_deleted = 3

-- 0 for a tenant that is not in the table.
abbrev pub stage_of : Text → List Tenant → ℕ
stage_of id [] = 0
stage_of id (t ∷ rows) = let rest = stage_of id rows in if t.id == id then stage t.status else rest

pub stage_of_absent :
    (id : Text) (rows : List Tenant) → contains (ids rows) id ≡ false → stage_of id rows ≡ 0
unfolding contains
stage_of_absent id [] h = refl
stage_of_absent id (t ∷ rows) h = ground (arith, stage_of_absent id rows)

pub stage_of-update_where :
    (test : Tenant → Bool) (change : Tenant → Tenant) (rows : List Tenant) (id : Text)
    → ((t : Tenant) → (change t).id ≡ t.id)
    → ((t : Tenant) → test t ≡ true → stage t.status ≤ stage (change t).status)
    → stage_of id rows ≤ stage_of id (update_where test change rows)
unfolding update_where
stage_of-update_where test change [] id same up = omega arith
stage_of-update_where test change (t ∷ rows) id same up =
    let rest = stage_of-update_where test change rows id same up in
    elim (Bool-cases (test t)) [
      | inl hit ↦ ground (arith, hit, same t, up t hit, rest)
      | inr miss ↦ ground (arith, miss, rest)
    ]

can_become-stage : (to from : TenantStatus) → can_become to from ≡ true → stage from ≤ stage to
unfolding can_become
can_become-stage status_active from h = ground (arith, h)
can_become-stage status_suspended from h = ground (arith, h)
can_become-stage status_deprovisioning from h = ground (arith, h)
can_become-stage status_deleted from h = ground (arith, h)

pub status_up :
    (now : ℕ) (id : Text) (to : TenantStatus) (t : Tenant)
    → on_id id (comes_from to) t ≡ true
    → stage t.status ≤ stage (with_status now to t).status
status_up now id to t h =
    let can : can_become to t.status ≡ true = ground (arith, h) in
    let (becomes, _) = with_status-status now to t in rw becomes (can_become-stage to t.status can)

pub stage_of-update_status :
    (now : ℕ) (id : Text) (to : TenantStatus) (rows rows' : List Tenant) (other : Text)
    → update_status now id to rows ≡ ok rows'
    → stage_of other rows ≤ stage_of other rows'
stage_of-update_status now id to rows rows' other h =
    let (_, e) = update_status_lem now id to rows rows' h in
    rw e (
      stage_of-update_where (on_id id (comes_from to)) (with_status now to) rows other
        (λ t. (with_status-status now to t).1) (status_up now id to))
