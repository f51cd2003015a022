-- ===== src/Tenants/Kin.antt =====
-- The row of a tenant through the first steps of RenameTenant.
use sukko.Common.{
  ◌+◌, ◌≡◌, refl, sym, ap, subst, ◌∙◌, inl, inr, Bool, List, [], ◌∷◌, arith, if◌then◌else◌, nat_eq,
  list_eq, Elem, Bool-cases, Option-cases, leb,
}
use sukko.Common.Text.{Text}
use sukko.Tenants.{Tenant, status_eq}
use sukko.Tenants.Store.{update_where, is_id, clear_rename_state}
use sukko.Tenants.Service.{ServiceConfig, clear_rename_row, Env, World}
use sukko.Tenants.Rename.{clear_state, pass_hold}
use sukko.Tenants.RenameGauge.{cleared}

pub Elem-update_where :
    (test : Tenant → Bool) (change : Tenant → Tenant) (t : Tenant) (rows : List Tenant)
    → Elem t rows
    → Elem (if test t then change t else t) (update_where test change rows)
unfolding update_where
Elem-update_where test change t [] m = absurd m
Elem-update_where test change t (r ∷ rows) (inl e) =
    inl (ap (λ x. if test x then change x else x) e)
Elem-update_where test change t (r ∷ rows) (inr m) = inr (Elem-update_where test change t rows m)

-- The row of the tenant that was read, whatever its rename state.
pub record Kin (t : Tenant) (rows : List Tenant) : Type 0 where
  pub row : Tenant
  pub member : Elem row rows
  pub same_id : row.id ≡ t.id
  pub same_slug : row.slug ≡ t.slug
  pub same_status : row.status ≡ t.status
  pub same_deletion : row.deleted_at ≡ t.deleted_at

pub Kin-update_where :
    (test : Tenant → Bool) (change : Tenant → Tenant) (t : Tenant) (rows rows' : List Tenant)
    → ((r : Tenant)
        → ((change r).id ≡ r.id)
          × ((change r).slug ≡ r.slug)
          × ((change r).status ≡ r.status)
          × ((change r).deleted_at ≡ r.deleted_at))
    → rows' ≡ update_where test change rows
    → Kin t rows
    → Kin t rows'
Kin-update_where test change t rows rows' same e k =
    let r = k.row in
    let m = Elem-update_where test change r rows k.member in
    elim (Bool-cases (test r)) [
      | inl hit ↦ record {
        row = change r;
        member = rw e (rw hit at m);
        same_id = (same r).0 ∙ k.same_id;
        same_slug = (same r).1 ∙ k.same_slug;
        same_status = (same r).2 ∙ k.same_status;
        same_deletion = (same r).3 ∙ k.same_deletion;
      }
      | inr miss ↦ record {
        row = r;
        member = rw e (rw miss at m);
        same_id = k.same_id;
        same_slug = k.same_slug;
        same_status = k.same_status;
        same_deletion = k.same_deletion;
      }
    ]

clear_state-Kin :
    (env : Env) (id : Text) (t : Tenant) (w : World)
    → Kin t w.tenants
    → Kin t (clear_state env id w).tenants
unfolding clear_state clear_rename_state
clear_state-Kin env id t w k = elim (Bool-cases (env.fails clear_rename_row)) [
  | inl fails ↦ rw (clear_state, fails) k
  | inr runs ↦
      rw (clear_state, runs)
        (Kin-update_where (is_id id) cleared t w.tenants (update_where (is_id id) cleared w.tenants)
          (λ r. (refl, refl, refl, refl)) refl k)
]

-- A world that has become another one.
carry : (t : Tenant) (w w' : World) → w' ≡ w → Kin t w.tenants → Kin t w'.tenants
carry t w w' e k = subst (λ x. Kin t x.tenants) (sym e) k

pub pass_hold-Kin :
    (config : ServiceConfig) (env : Env) (t : Tenant) (w : World)
    → Kin t w.tenants
    → Kin t (pass_hold config env t w).0.tenants
unfolding pass_hold
pass_hold-Kin config env t w k = elim (Option-cases t.slug_renamed_at) [
  | inl never ↦ carry t w (pass_hold config env t w).0 (ground (arith, never)) k
  | inr (at, renamed) ↦
      elim (Bool-cases (leb (at + config.slug_rename_topic_hold_period) env.now)) [
        | inl over ↦
            carry t (clear_state env t.id w) (pass_hold config env t w).0
              (ground (arith, renamed, over)) (clear_state-Kin env t.id t w k)
        | inr held ↦ carry t w (pass_hold config env t w).0 (ground (arith, renamed, held)) k
      ]
]
