-- ===== src/Tenants/Status.antt =====
-- UpdateStatus on the row that was read: the transition it makes and what it does to the counts.
use sukko.Common.{
  ℕ, ◌+◌, ◌≡◌, refl, sym, ap, ◌∙◌, inl, inr, Bool, true, List, ok, arith, ◌==◌, nat_eq, list_eq,
  Distinct, Elem, Bool-cases, any,
}
use sukko.Common.Text.{Text}
use sukko.Tenants.{
  TenantStatus, status_active, status_suspended, status_deprovisioning, status_deleted, status_eq,
  Tenant,
}
use sukko.Tenants.Store.{
  update_where, can_become, with_status, update_status, count_where, count_active, is_active_tenant,
}
use sukko.Tenants.Rows.{ids, bit, on_id, ids-update_where, count-update_where, any-on_id}

pub with_status-status :
    (now : ℕ) (to : TenantStatus) (t : Tenant)
    → ((with_status now to t).status ≡ to) × ((with_status now to t).id ≡ t.id)
unfolding with_status
with_status-status now status_active t = (refl, refl)
with_status-status now status_suspended t = (refl, refl)
with_status-status now status_deprovisioning t = (refl, refl)
with_status-status now status_deleted t = (refl, refl)

-- The guard of the statement for a new status.
abbrev pub comes_from : TenantStatus → Tenant → Bool
comes_from to t = can_become to t.status

pub update_status_lem :
    (now : ℕ) (id : Text) (to : TenantStatus) (rows rows' : List Tenant)
    → update_status now id to rows ≡ ok rows'
    → (any (on_id id (comes_from to)) rows ≡ true)
      × (rows' ≡ update_where (on_id id (comes_from to)) (with_status now to) rows)
unfolding update_status
update_status_lem now id to rows rows' h = elim (Bool-cases (any (on_id id (comes_from to)) rows)) [
  | inl hit ↦ (hit, ground (arith, hit, h))
  | inr miss ↦ absurd (ground (arith, miss, h))
]

pub status_changed :
    (now : ℕ) (to : TenantStatus) (t : Tenant) (rows rows' : List Tenant)
    → Distinct (ids rows)
    → Elem t rows
    → update_status now t.id to rows ≡ ok rows'
    → (ids rows' ≡ ids rows)
      × (count_active rows' + bit (t.status == status_active)
          ≡ count_active rows + bit (to == status_active))
      × (can_become to t.status ≡ true)
unfolding count_active
status_changed now to t rows rows' d m h =
    let (hit, e) = update_status_lem now t.id to rows rows' h in
    let can : can_become to t.status ≡ true = sym (any-on_id (comes_from to) t rows d m) ∙ hit in
    let counted =
      count-update_where is_active_tenant (comes_from to) (with_status now to) t rows d m in
    let (becomes, _) = with_status-status now to t in
    (
      ap ids e
          ∙ ids-update_where (on_id t.id (comes_from to)) (with_status now to) rows
              (λ r. (with_status-status now to r).1),
      ground (arith, ap (count_where is_active_tenant) e, counted, can, becomes),
      can,
    )
