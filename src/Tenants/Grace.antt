-- ===== src/Tenants/Grace.antt =====
-- Renames and creations that meet: the lock of a rename, the compensation for a slug that was taken,
-- and a slug that another tenant still answers to.
use sukko.Common.{
  ℕ, ◌+◌, ◌≤◌, ◌≡◌, ◌≢◌, refl, sym, ap, inl, inr, Bool, true, false, not, ◌&&◌, some, List, [], ◌∷◌,
  ok, arith, nat_eq, list_eq, eq_refl, Elem, any, keep, leb, contains,
}
use sukko.Common.Text.{Text}
use sukko.Tenants.{Tenant, rename_pending}
use sukko.Tenants.Store.{
  update_where, is_id, set_rename_state, clear_rename_state, is_pending, select_with_grace,
  matches_with_grace,
}
use sukko.Tenants.Service.{ServiceConfig, clear_rename_row, Env, World, stored}
use sukko.Tenants.Create.{CreateTenantRequest, tenant_of, create_tenant}
use sukko.Tenants.Rename.{clear_state, pass_hold, lock_result}
use sukko.Tenants.Rows.{ids, Elem-ids}
use sukko.Tenants.EditionLimit.{created_lem}

clear-unlocks :
    (id previous : Text) (rows : List Tenant)
    → any (λ r. is_id id r && not (is_pending r.slug_rename_state)) (clear_rename_state id rows)
      ≡ any (is_id id) rows
unfolding clear_rename_state update_where
clear-unlocks id previous [] = refl
clear-unlocks id previous (r ∷ rows) = ground (arith, clear-unlocks id previous rows)

-- A rename that has read a tenant whose hold period is over takes the lock of that tenant, also when
-- another rename holds it: it clears the state of the row that it finds, which need not be the
-- state that it has read.
pub pass_hold-unlocks :
    (config : ServiceConfig) (env : Env) (t : Tenant) (at : ℕ) (w : World)
    → t.slug_renamed_at ≡ some at
    → at + config.slug_rename_topic_hold_period ≤ env.now
    → any (is_id t.id) w.tenants ≡ true
    → env.fails clear_rename_row ≡ false
    → let w' = (pass_hold config env t w).0 in
      let lock =
        lock_result (stored false (set_rename_state t.id rename_pending t.slug w'.tenants)) in
      (rows : List Tenant) × (lock ≡ ok rows)
unfolding pass_hold clear_state set_rename_state
pass_hold-unlocks config env t at w renamed over there works =
    let unlocked = clear-unlocks t.id t.slug w.tenants in
    let expired : leb (at + config.slug_rename_topic_hold_period) env.now ≡ true =
      ground (arith, over) in
    let runs : (pass_hold config env t w).0.tenants ≡ clear_rename_state t.id w.tenants =
      ground (arith, renamed, expired, works) in
    (
      update_where (λ r. is_id t.id r && not (is_pending r.slug_rename_state))
          (λ r. record r { slug_rename_state = some rename_pending; previous_slug = t.slug })
          (pass_hold config env t w).0.tenants,
      rw runs (ground (arith, unlocked, there)),
    )

keep-Elem :
    (p : Tenant → Bool) (t : Tenant) (rows : List Tenant)
    → Elem t rows
    → p t ≡ true
    → Elem t (keep p rows)
keep-Elem p t [] m h = absurd m
keep-Elem p t (r ∷ rows) (inl e) h = ground (arith, sym e, ap p e, h)
keep-Elem p t (r ∷ rows) (inr m) h = ground (arith, keep-Elem p t rows m h)

-- A tenant can be created under a slug that a renamed tenant answers to in its hold period: then
-- the lookup of that slug selects both tenants, of which it returns one.
pub create_tenant-ambiguous :
    (config : ServiceConfig) (env : Env) (req : CreateTenantRequest) (t new : Tenant)
    (later hold : ℕ) (w : World)
    → Elem t w.tenants
    → matches_with_grace later hold req.slug t ≡ true
    → (create_tenant config env req w).1 ≡ ok new
    → let rows = select_with_grace later hold req.slug (create_tenant config env req w).0.tenants in
      Elem t rows × Elem (tenant_of env req) rows × (t.id ≢ (tenant_of env req).id)
unfolding select_with_grace matches_with_grace tenant_of
create_tenant-ambiguous config env req t new later hold w m match h =
    let created = tenant_of env req in
    let (whole, fresh) = created_lem config env req w new h in
    let test = matches_with_grace later hold req.slug in
    let hit : test created ≡ true = ground (arith, eq_refl req.slug) in
    let other : t.id ≢ created.id =
      λ e. ground (arith, fresh, Elem-ids t w.tenants m, ap (contains (ids w.tenants)) e) in
    rw whole (
      keep-Elem test t (created ∷ w.tenants) (inr m) match,
      keep-Elem test created (created ∷ w.tenants) (inl refl) hit,
      other,
    )
