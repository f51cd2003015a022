-- ===== src/Tenants/ForceDelete.antt =====
-- DeprovisionTenant by force and with a grace period: the keys that are left, and what the gateways
-- are told.
use sukko.Common.{
  ℕ, ◌≤◌, ◌≡◌, refl, ap, ◌∙◌, inl, inr, Bool, true, false, not, ◌||◌, List, [], ◌∷◌, ok, arith,
  nat_eq, list_eq, Bool-cases, Result-cases, any, keep, length, suc,
}
use sukko.Common.Text.{Text, codes}
use sukko.Tenants.{Tenant, status_deleted, status_deprovisioning, status_eq}
use sukko.Tenants.Store.{get_by_slug, update_status}
use sukko.Tenants.KeyStore.{
  ApiKey, revoke_all_for_tenant, get_active_keys, get_active_api_keys, list_by_tenant,
}
use sukko.Tenants.Service.{
  ServiceConfig, EventType, api_keys_changed, update_status_row, get_tenant, revoke_all_keys,
  list_api_keys, revoke_api_key, Env, World, stored, call, emit_event, audit_log,
  dec_active_tenants,
}
use sukko.Tenants.Create.{announce_tenant}
use sukko.Tenants.Deletion.{
  revoke_keys, set_revoked, revoke_listed, revoke_api_keys, delete_rules, delete_channels,
  delete_topics, clean_up, force_deprovision, deprovision_found, deprovision_tenant,
  cleanup_suffixes, api_key_limit, set_deadline, set_retentions, begin_deprovision, dec_if_active,
}
use sukko.Tenants.DeletionGauge.{force_delete-done, force_delete-failed}
use sukko.Tenants.Access.{of_tenant, api_key_of, revoke_all-none_active, revoke_all_api-none_active}

-- The keys of a world, and how often the gateways were told that API keys have changed.
abbrev pub told : List EventType → ℕ
told [] = 0
told (api_keys_changed ∷ events) = suc (told events)
told (_ ∷ events) = told events

abbrev pub SameKeys : World → World → Type 0
SameKeys w w' = (w'.keys ≡ w.keys) × (w'.api_keys ≡ w.api_keys) × (told w'.events ≡ told w.events)

delete_topics-SameKeys :
    (config : ServiceConfig) (slug : Text) (suffixes : List Text) (w : World)
    → SameKeys w (delete_topics config slug suffixes w)
unfolding delete_topics call
delete_topics-SameKeys config slug [] w = (refl, refl, refl)
delete_topics-SameKeys config slug (s ∷ suffixes) w = delete_topics-SameKeys config slug suffixes _

set_retentions-SameKeys :
    (config : ServiceConfig) (slug : Text) (suffixes : List Text) (w : World)
    → SameKeys w (set_retentions config slug suffixes w)
unfolding set_retentions call
set_retentions-SameKeys config slug [] w = (refl, refl, refl)
set_retentions-SameKeys config slug (s ∷ suffixes) w =
    set_retentions-SameKeys config slug suffixes _

announce_tenant-SameKeys :
    (env : Env) (id action : Text) (w : World) → SameKeys w (announce_tenant env id action w)
unfolding announce_tenant emit_event audit_log
announce_tenant-SameKeys env id action w = ground arith

delete_rules-SameKeys :
    (config : ServiceConfig) (env : Env) (id : Text) (w : World)
    → SameKeys w (delete_channels config env id (delete_rules config env id w))
unfolding delete_rules delete_channels
delete_rules-SameKeys config env id w = ground arith

-- What a forced deletion does to the keys.
clean_up-keys :
    (config : ServiceConfig) (env : Env) (t : Tenant) (suffixes : List Text) (w : World)
    → let w2 = revoke_api_keys config env t.id (revoke_keys env t.id w) in
      SameKeys w2 (clean_up config env t suffixes w)
unfolding clean_up
clean_up-keys config env t suffixes w =
    let w2 = revoke_api_keys config env t.id (revoke_keys env t.id w) in
    let w4 = delete_channels config env t.id (delete_rules config env t.id w2) in
    let w5 = delete_topics config t.slug suffixes w4 in
    let (a, b, c) = delete_rules-SameKeys config env t.id w2 in
    let (d, e, f) = delete_topics-SameKeys config t.slug suffixes w4 in
    let (g, h, i) = announce_tenant-SameKeys env t.id (codes "deprovision_tenant") w5 in
    (g ∙ d ∙ a, h ∙ e ∙ b, i ∙ f ∙ c)

revoke_keys_lem :
    (env : Env) (id : Text) (w : World)
    → let w' = revoke_keys env id w in
      (w'.api_keys ≡ w.api_keys)
      × (told w'.events ≡ told w.events)
      × (env.fails revoke_all_keys ≡ false → w'.keys ≡ revoke_all_for_tenant env.now id w.keys)
unfolding revoke_keys emit_event
revoke_keys_lem env id w = ground arith

set_revoked_lem :
    (r : List ApiKey × Bool) (w : World)
    → let w' = set_revoked r w in
      (w'.keys ≡ w.keys) × (told w'.events ≡ told w.events) × (w'.api_keys ≡ r.0)
unfolding set_revoked emit_event
set_revoked_lem (rows, true) w = (refl, refl, refl)
set_revoked_lem (rows, false) w = (refl, refl, refl)

revoke_api_keys_lem :
    (config : ServiceConfig) (env : Env) (id : Text) (w : World)
    → let w' = revoke_api_keys config env id w in
      (w'.keys ≡ w.keys)
      × (told w'.events ≡ told w.events)
      × (config.has_api_keys ≡ true
          → env.fails list_api_keys ≡ false
          → w'.api_keys
            ≡ (revoke_listed env (list_by_tenant id api_key_limit 0 w.api_keys) w.api_keys).0)
unfolding revoke_api_keys
revoke_api_keys_lem config env id w =
    let r = revoke_listed env (list_by_tenant id api_key_limit 0 w.api_keys) w.api_keys in
    let (a, b, c) = set_revoked_lem r w in
    elim (Bool-cases (not config.has_api_keys || env.fails list_api_keys)) [
      | inl skips ↦
          rw (revoke_api_keys, skips) (refl, refl, λ h k. absurd (ground (arith, skips, h, k)))
      | inr runs ↦ rw (revoke_api_keys, runs) (a, b, λ h k. c)
    ]

-- The keys after a forced deletion are those of its clean-up.
forced_lem :
    (config : ServiceConfig) (env : Env) (slug : Text) (t : Tenant) (w : World)
    → stored (env.fails get_tenant) (get_by_slug slug w.tenants) ≡ ok t
    → (deprovision_tenant config env slug true w).1 ≡ ok tt
    → (rows : List Tenant) × SameKeys
        (clean_up config env t (cleanup_suffixes config env t.id w) (record w { tenants = rows }))
        (deprovision_tenant config env slug true w).0
unfolding deprovision_tenant deprovision_found force_deprovision dec_active_tenants
forced_lem config env slug t w read h =
    let updated = update_status env.now t.id status_deleted w.tenants in
    elim (Result-cases (stored (env.fails update_status_row) updated)) [
      | inl (e, failed) ↦
          absurd (ground (arith, read, h, force_delete-failed config env t w e failed))
      | inr (rows, done) ↦
          let deleted = force_delete-done config env t w rows done in
          (
            rows,
            (
              ground (arith, read, h, deleted),
              ground (arith, read, h, deleted),
              ground (arith, read, h, deleted),
            ),
          )
    ]

-- A forced deletion that succeeds, with the calls for keys working and at most 10,000 API keys,
-- leaves no signing key and no API key of the tenant that the gateways would be given.
pub force_delete-none_active :
    (config : ServiceConfig) (env : Env) (slug : Text) (t : Tenant) (later : ℕ) (w : World)
    → stored (env.fails get_tenant) (get_by_slug slug w.tenants) ≡ ok t
    → (deprovision_tenant config env slug true w).1 ≡ ok tt
    → config.has_api_keys ≡ true
    → env.fails revoke_all_keys ≡ false
    → env.fails list_api_keys ≡ false
    → env.fails revoke_api_key ≡ false
    → length (keep (api_key_of t.id) w.api_keys) ≤ 10_000
    → let w' = (deprovision_tenant config env slug true w).0 in
      (any (of_tenant t.id) (get_active_keys later w'.keys) ≡ false)
      × (any (api_key_of t.id) (get_active_api_keys w'.api_keys) ≡ false)
force_delete-none_active config env slug t later w read h has a b c few =
    let (rows, (keys, api, _)) = forced_lem config env slug t w read h in
    let w0 = record w { tenants = rows } in
    let w1 = revoke_keys env t.id w0 in
    let suffixes = cleanup_suffixes config env t.id w in
    let (keys', api', _) = clean_up-keys config env t suffixes w0 in
    let (same, _, revoked) = revoke_keys_lem env t.id w0 in
    let (keys'', _, listed) = revoke_api_keys_lem config env t.id w1 in
    let kept = keys ∙ keys' ∙ keys'' ∙ revoked a in
    let left =
      api
      ∙ api'
      ∙ listed has b
      ∙ ap (λ r. (revoke_listed env (list_by_tenant t.id api_key_limit 0 r) r).0) same in
    (
      ap (λ k. any (of_tenant t.id) (get_active_keys later k)) kept
          ∙ revoke_all-none_active env.now later t.id w.keys,
      ap (λ k. any (api_key_of t.id) (get_active_api_keys k)) left
          ∙ revoke_all_api-none_active env t.id api_key_limit w.api_keys c few,
    )

clean_up-told :
    (config : ServiceConfig) (env : Env) (t : Tenant) (suffixes : List Text) (w : World)
    → told (clean_up config env t suffixes w).events ≡ told w.events
clean_up-told config env t suffixes w =
    let (_, _, a) = clean_up-keys config env t suffixes w in
    let (_, b, _) = revoke_api_keys_lem config env t.id (revoke_keys env t.id w) in
    let (_, c, _) = revoke_keys_lem env t.id w in a ∙ b ∙ c

dec_if_active-SameKeys : (t : Tenant) (w : World) → SameKeys w (dec_if_active t w)
unfolding dec_active_tenants
dec_if_active-SameKeys t w = ground arith

force_deprovision-told :
    (config : ServiceConfig) (env : Env) (t : Tenant) (w : World)
    → told (force_deprovision config env t w).0.events ≡ told w.events
unfolding force_deprovision
force_deprovision-told config env t w =
    let updated = update_status env.now t.id status_deleted w.tenants in
    elim (Result-cases (stored (env.fails update_status_row) updated)) [
      | inl (e, failed) ↦
          let kept = force_delete-failed config env t w e failed in
          let runs : (force_deprovision config env t w).0 ≡ w = ground (arith, kept) in
          ap (λ x. told x.events) runs
      | inr (rows, done) ↦
          let deleted = force_delete-done config env t w rows done in
          let w0 = record w { tenants = rows } in
          let suffixes = cleanup_suffixes config env t.id w in
          let w1 = clean_up config env t suffixes w0 in
          let runs : (force_deprovision config env t w).0 ≡ dec_if_active t w1 =
            ground (arith, deleted) in
          ap (λ x. told x.events) runs
          ∙ (dec_if_active-SameKeys t w1).2
          ∙ clean_up-told config env t suffixes w0
    ]

set_deadline-SameKeys :
    (config : ServiceConfig) (env : Env) (id : Text) (w : World)
    → SameKeys w (set_deadline config env id w)
unfolding set_deadline
set_deadline-SameKeys config env id w = ground arith

begin_deprovision-told :
    (config : ServiceConfig) (env : Env) (t : Tenant) (w : World)
    → let w' = (begin_deprovision config env t w).0 in
      (told w'.events ≡ told w.events) × (w'.api_keys ≡ w.api_keys)
unfolding begin_deprovision
begin_deprovision-told config env t w =
    let updated = update_status env.now t.id status_deprovisioning w.tenants in
    elim (Result-cases (stored (env.fails update_status_row) updated)) [
      | inl (e, failed) ↦ rw (begin_deprovision, failed) (refl, refl)
      | inr (rows, done) ↦
          let w0 = record w { tenants = rows } in
          let w1 = dec_if_active t w0 in
          let w2 = revoke_keys env t.id w1 in
          let w3 = set_deadline config env t.id w2 in
          let suffixes = cleanup_suffixes config env t.id w3 in
          let w4 = set_retentions config t.slug suffixes w3 in
          let (_, a, b) = dec_if_active-SameKeys t w0 in
          let (c, d, _) = revoke_keys_lem env t.id w1 in
          let (_, e, f) = set_deadline-SameKeys config env t.id w2 in
          let (_, g, h) = set_retentions-SameKeys config t.slug suffixes w3 in
          let (_, i, j) = announce_tenant-SameKeys env t.id (codes "deprovision_tenant") w4 in
          rw (begin_deprovision, done) (j ∙ h ∙ f ∙ d ∙ b, i ∙ g ∙ e ∙ c ∙ a)
    ]

-- A deprovisioning, by force or not, never tells the gateways that API keys have changed, and
-- without force it leaves every API key as it is.
pub deprovision-silent :
    (config : ServiceConfig) (env : Env) (slug : Text) (force : Bool) (w : World)
    → let w' = (deprovision_tenant config env slug force w).0 in
      (told w'.events ≡ told w.events) × (force ≡ false → w'.api_keys ≡ w.api_keys)
unfolding deprovision_tenant deprovision_found
deprovision-silent config env slug force w =
    elim (Result-cases (stored (env.fails get_tenant) (get_by_slug slug w.tenants))) [
      | inl (e, failed) ↦ ground (arith, failed)
      | inr (t, read) ↦ ground (
        arith,
        read,
        force_deprovision-told config env t w,
        begin_deprovision-told config env t w,
      )
    ]
