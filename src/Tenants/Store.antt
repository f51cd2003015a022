-- ===== src/Tenants/Store.antt =====
-- ws/internal/provisioning/repository: the statements of tenant.go, key.go and api_key.go on the rows
-- of their tables. A call of the database may fail besides; the callers say so. The primary key
-- and the UNIQUE constraint on the slug are those of the migration 001_initial.sql.
use sukko.Common.{
  ℕ, ◌+◌, Bool, true, false, not, ◌&&◌, ◌||◌, Option, none, some, List, [], ◌∷◌, Result, ok, err,
  if◌then◌else◌, ltb, leb, ◌==◌, nat_eq, list_eq, any, keep,
}
use sukko.Common.Text.{Text}
use sukko.Tenants.{
  TenantStatus, status_active, status_suspended, status_deprovisioning, status_deleted, status_eq,
  SlugRenameState, rename_pending, rename_complete, Tenant,
}

pub data StoreError : Type 0 where
  tenant_not_found slug_already_taken cas_failed : StoreError
  key_already_exists key_not_found quota_not_found unavailable : StoreError

-- UPDATE ... WHERE: the rows that pass the test are changed.
unfoldable pub update_where : (Tenant → Bool) → (Tenant → Tenant) → List Tenant → List Tenant
update_where test change [] = []
update_where test change (t ∷ rows) =
    (if test t then change t else t) ∷ update_where test change rows

-- The statement, or the given error if it affects no row.
abbrev pub update_or :
    StoreError → (Tenant → Bool) → (Tenant → Tenant) → List Tenant → Result StoreError (List Tenant)
update_or none_matched test change rows =
    if any test rows then ok (update_where test change rows) else err none_matched

abbrev pub is_none {ℓ} : {A : Type ℓ} → Option A → Bool
is_none none = true
is_none (some a) = false

-- The first row that passes the test.
unfoldable pub find_row : (Tenant → Bool) → List Tenant → Option Tenant
find_row test [] = none
find_row test (t ∷ rows) = let rest = find_row test rows in if test t then some t else rest

abbrev pub or_not_found : Option Tenant → Result StoreError Tenant
or_not_found none = err tenant_not_found
or_not_found (some t) = ok t

abbrev pub has_slug : Text → Tenant → Bool
has_slug slug t = t.slug == slug && is_none t.deleted_at

unfoldable pub get_by_slug : Text → List Tenant → Result StoreError Tenant
unfolding find_row
get_by_slug slug rows = or_not_found (find_row (has_slug slug) rows)

-- The condition of GetIDBySlugWithGrace on `slug_renamed_at`.
abbrev pub renamed_after : ℕ → ℕ → Option ℕ → Bool
renamed_after now hold none = false
renamed_after now hold (some at) = ltb now (at + hold)

abbrev pub is_complete : Option SlugRenameState → Bool
is_complete (some rename_complete) = true
is_complete _ = false

abbrev pub is_pending : Option SlugRenameState → Bool
is_pending (some rename_pending) = true
is_pending _ = false

-- A row that GetIDBySlugWithGrace selects; NOW() - hold is the bound that its caller computes.
unfoldable pub matches_with_grace : ℕ → ℕ → Text → Tenant → Bool
matches_with_grace now hold slug t =
    is_none t.deleted_at
    && (t.slug == slug
        || (t.previous_slug == slug
            && t.status == status_active
            && is_complete t.slug_rename_state
            && renamed_after now hold t.slug_renamed_at))

-- The rows that GetIDBySlugWithGrace selects, of which the call reads one: without an ORDER BY the
-- database says which.
unfoldable pub select_with_grace : ℕ → ℕ → Text → List Tenant → List Tenant
unfolding matches_with_grace
select_with_grace now hold slug rows = keep (matches_with_grace now hold slug) rows

abbrev pub is_id : Text → Tenant → Bool
is_id id t = t.id == id

-- Create: the constraints of the table, then the new row.
unfoldable pub create_row : Tenant → List Tenant → Result StoreError (List Tenant)
create_row t rows =
    if any (λ other. other.slug == t.slug) rows
    then err slug_already_taken
    else if any (is_id t.id) rows
    then err slug_already_taken
    else ok (t ∷ rows)

unfoldable pub update : Tenant → List Tenant → Result StoreError (List Tenant)
unfolding update_where
update tenant rows =
    update_or tenant_not_found (λ t. is_id tenant.id t && not (t.status == status_deleted))
      (λ t. record t {
        name = tenant.name;
        consumer_type = tenant.consumer_type;
        metadata = tenant.metadata;
      })
      rows

abbrev pub rename_row : ℕ → Text → Tenant → Tenant
rename_row now new_slug t = record t {
  slug = new_slug;
  slug_rename_state = some rename_complete;
  previous_slug = t.slug;
  slug_renamed_at = some now;
}

unfoldable pub update_slug : ℕ → Text → Text → List Tenant → Result StoreError (List Tenant)
unfolding update_where
update_slug now id new_slug rows =
    if any (is_id id) rows && any (λ t. t.slug == new_slug && not (is_id id t)) rows
    then err slug_already_taken
    else update_or tenant_not_found (is_id id) (rename_row now new_slug) rows

unfoldable pub set_rename_state :
    Text → SlugRenameState → Text → List Tenant → Result StoreError (List Tenant)
unfolding update_where
set_rename_state id state previous rows =
    update_or cas_failed (λ t. is_id id t && not (is_pending t.slug_rename_state))
      (λ t. record t { slug_rename_state = some state; previous_slug = previous }) rows

unfoldable pub clear_rename_state : Text → List Tenant → List Tenant
unfolding update_where
clear_rename_state id rows =
    update_where (is_id id)
      (λ t. record t { slug_rename_state = none; previous_slug = []; slug_renamed_at = none }) rows

-- The states that the statement of UpdateStatus takes a tenant from.
unfoldable pub can_become : TenantStatus → TenantStatus → Bool
can_become status_suspended from = from == status_active
can_become status_active from = from == status_suspended
can_become status_deprovisioning from = from == status_active || from == status_suspended
can_become status_deleted from =
    from == status_active || from == status_suspended || from == status_deprovisioning

unfoldable pub with_status : ℕ → TenantStatus → Tenant → Tenant
with_status now status_suspended t = record t { status = status_suspended; suspended_at = some now }
with_status now status_active t = record t { status = status_active; suspended_at = none }
with_status now status_deprovisioning t = record t { status = status_deprovisioning }
with_status now status_deleted t = record t { status = status_deleted; deleted_at = some now }

unfoldable pub update_status :
    ℕ → Text → TenantStatus → List Tenant → Result StoreError (List Tenant)
unfolding update_where can_become with_status
update_status now id status rows =
    update_or tenant_not_found (λ t. is_id id t && can_become status t.status)
      (with_status now status) rows

unfoldable pub set_deprovision_at : Text → ℕ → List Tenant → Result StoreError (List Tenant)
unfolding update_where
set_deprovision_at id at rows =
    update_or tenant_not_found (λ t. is_id id t && t.status == status_deprovisioning)
      (λ t. record t { deprovision_at = some at }) rows

abbrev pub is_due : ℕ → Tenant → Bool
is_due now t =
    t.status == status_deprovisioning
    && elim t.deprovision_at [ none ↦ false | some at ↦ leb at now ]

unfoldable pub get_tenants_for_deletion : ℕ → List Tenant → List Tenant
get_tenants_for_deletion now rows = keep (is_due now) rows

unfoldable pub list_pending_renames : List Tenant → List Tenant
list_pending_renames rows =
    keep
      (λ t.
        is_pending t.slug_rename_state
        || (is_complete t.slug_rename_state && not (t.previous_slug == [])))
      rows

-- SELECT COUNT(*) ... WHERE.
unfoldable pub count_where : (Tenant → Bool) → List Tenant → ℕ
count_where test [] = 0
count_where test (t ∷ rows) = (if test t then 1 else 0) + count_where test rows

abbrev pub is_not_deleted : Tenant → Bool
is_not_deleted t = not (t.status == status_deleted)

unfoldable pub count : List Tenant → ℕ
unfolding count_where
count rows = count_where is_not_deleted rows

abbrev pub is_active_tenant : Tenant → Bool
is_active_tenant t = t.status == status_active

unfoldable pub count_active : List Tenant → ℕ
unfolding count_where
count_active rows = count_where is_active_tenant rows
