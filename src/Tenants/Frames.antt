-- ===== src/Tenants/Frames.antt =====
-- The steps of the service that leave the rows of the tenants and the gauge as they are.
use sukko.Common.{
  ◌≡◌, refl, ◌∙◌, inl, inr, Bool, true, false, not, ◌||◌, Option, none, some, List, [], ◌∷◌, arith,
  Bool-cases,
}
use sukko.Common.Text.{Text, codes}
use sukko.Tenants.{Tenant}
use sukko.Tenants.KeyStore.{ApiKey}
use sukko.Tenants.Service.{
  ServiceConfig, Env, World, call, emit_event, audit_log, InfraTopicSpec, create_infra_topic,
  write_audit_entry, list_api_keys,
}
use sukko.Tenants.Create.{
  CreateKeyRequest, provision_topics, create_quota, create_initial_key, announce_tenant,
  finish_tenant,
}
use sukko.Tenants.LifeCycle.{create_infra_topics}
use sukko.Tenants.Deletion.{
  cleanup_suffixes, set_revoked, set_retentions, delete_topics, revoke_keys, revoke_api_keys,
  delete_rules, delete_channels, clean_up, sweep_up,
}
use sukko.Tenants.Rename.{create_new_topics, delete_new_topics, move_quota, finish_rename}

abbrev pub Framed : World → World → Type 0
Framed w w' = (w'.tenants ≡ w.tenants) × (w'.active_tenants ≡ w.active_tenants)

pub Framed-trans : (w w' w'' : World) → Framed w w' → Framed w' w'' → Framed w w''
Framed-trans w w' w'' (a, b) (c, d) = (c ∙ a, d ∙ b)

pub audit_log-Framed :
    (env : Env) (id action : Text) (w : World) → Framed w (audit_log env id action w)
unfolding audit_log
audit_log-Framed env id action w = ground arith

pub announce_tenant-Framed :
    (env : Env) (id action : Text) (w : World) → Framed w (announce_tenant env id action w)
unfolding announce_tenant emit_event
announce_tenant-Framed env id action w = audit_log-Framed env id action w

pub create_quota-Framed :
    (config : ServiceConfig) (env : Env) (t : Tenant) (w : World)
    → Framed w (create_quota config env t w)
unfolding create_quota
create_quota-Framed config env t w = ground arith

pub create_initial_key-Framed :
    (env : Env) (t : Tenant) (key : Option CreateKeyRequest) (w : World)
    → Framed w (create_initial_key env t key w).0
unfolding create_initial_key
create_initial_key-Framed env t none w = (refl, refl)
create_initial_key-Framed env t (some k) w = ground arith

pub finish_tenant-Framed :
    (config : ServiceConfig) (env : Env) (t : Tenant) (key : Option CreateKeyRequest) (w : World)
    → Framed w (finish_tenant config env t key w).0
unfolding finish_tenant
finish_tenant-Framed config env t key w =
    let w1 = create_quota config env t w in
    ground (
      arith,
      create_quota-Framed config env t w,
      create_initial_key-Framed env t key w1,
      announce_tenant-Framed env t.id,
    )

pub provision_topics-Framed :
    (config : ServiceConfig) (env : Env) (slug : Text) (w : World)
    → Framed w (provision_topics config env slug w).0
unfolding provision_topics create_infra_topic call
provision_topics-Framed config env slug w = ground arith

pub create_infra_topics-Framed :
    (config : ServiceConfig) (slug : Text) (specs : List InfraTopicSpec) (w : World)
    → Framed w (create_infra_topics config slug specs w)
unfolding create_infra_topics create_infra_topic call
create_infra_topics-Framed config slug [] w = (refl, refl)
create_infra_topics-Framed config slug (spec ∷ specs) w =
    create_infra_topics-Framed config slug specs (create_infra_topic config slug spec w)

pub set_retentions-Framed :
    (config : ServiceConfig) (slug : Text) (suffixes : List Text) (w : World)
    → Framed w (set_retentions config slug suffixes w)
unfolding set_retentions call
set_retentions-Framed config slug [] w = (refl, refl)
set_retentions-Framed config slug (s ∷ suffixes) w = set_retentions-Framed config slug suffixes _

pub delete_topics-Framed :
    (config : ServiceConfig) (slug : Text) (suffixes : List Text) (w : World)
    → Framed w (delete_topics config slug suffixes w)
unfolding delete_topics call
delete_topics-Framed config slug [] w = (refl, refl)
delete_topics-Framed config slug (s ∷ suffixes) w = delete_topics-Framed config slug suffixes _

pub revoke_keys-Framed : (env : Env) (id : Text) (w : World) → Framed w (revoke_keys env id w)
unfolding revoke_keys emit_event
revoke_keys-Framed env id w = ground arith

set_revoked-Framed : (r : List ApiKey × Bool) (w : World) → Framed w (set_revoked r w)
unfolding set_revoked emit_event
set_revoked-Framed (rows, true) w = (refl, refl)
set_revoked-Framed (rows, false) w = (refl, refl)

pub revoke_api_keys-Framed :
    (config : ServiceConfig) (env : Env) (id : Text) (w : World)
    → Framed w (revoke_api_keys config env id w)
unfolding revoke_api_keys
revoke_api_keys-Framed config env id w =
    elim (Bool-cases (not config.has_api_keys || env.fails list_api_keys)) [
      | inl skips ↦ rw skips (refl, refl)
      | inr runs ↦ rw runs (set_revoked-Framed _ w)
    ]

pub delete_rules-Framed :
    (config : ServiceConfig) (env : Env) (id : Text) (w : World)
    → Framed w (delete_rules config env id w)
unfolding delete_rules
delete_rules-Framed config env id w = ground arith

pub delete_channels-Framed :
    (config : ServiceConfig) (env : Env) (id : Text) (w : World)
    → Framed w (delete_channels config env id w)
unfolding delete_channels
delete_channels-Framed config env id w = ground arith

pub clean_up-Framed :
    (config : ServiceConfig) (env : Env) (t : Tenant) (suffixes : List Text) (w : World)
    → Framed w (clean_up config env t suffixes w)
unfolding clean_up
clean_up-Framed config env t suffixes w =
    let w1 = revoke_keys env t.id w in
    let w2 = revoke_api_keys config env t.id w1 in
    let w3 = delete_rules config env t.id w2 in
    let w4 = delete_channels config env t.id w3 in
    let w5 = delete_topics config t.slug suffixes w4 in
    let revoked =
      Framed-trans w w1 w2 (revoke_keys-Framed env t.id w)
        (revoke_api_keys-Framed config env t.id w1) in
    let deleted =
      Framed-trans w2 w3 w4 (delete_rules-Framed config env t.id w2)
        (delete_channels-Framed config env t.id w3) in
    let action = codes "deprovision_tenant" in
    let w6 = announce_tenant env t.id action w5 in
    let announced =
      Framed-trans w4 w5 w6 (delete_topics-Framed config t.slug suffixes w4)
        (announce_tenant-Framed env t.id action w5) in
    Framed-trans w w2 w6 revoked (Framed-trans w2 w4 w6 deleted announced)

pub sweep_up-Framed :
    (config : ServiceConfig) (env : Env) (t : Tenant) (w : World)
    → Framed w (sweep_up config env t w)
unfolding sweep_up call
sweep_up-Framed config env t w =
    let w1 = delete_topics config t.slug (cleanup_suffixes config env t.id w) w in
    let swept =
      Framed-trans w w1 (delete_rules config env t.id w1)
        (delete_topics-Framed config t.slug (cleanup_suffixes config env t.id w) w)
        (delete_rules-Framed config env t.id w1) in
    elim (Bool-cases (env.fails write_audit_entry)) [
      | inl fails ↦ rw fails swept
      | inr runs ↦ rw runs swept
    ]

pub create_new_topics-Framed :
    (config : ServiceConfig) (env : Env) (slug : Text) (specs : List InfraTopicSpec) (w : World)
    → Framed w (create_new_topics config env slug specs w).0
unfolding create_new_topics create_infra_topic call
create_new_topics-Framed config env slug [] w = (refl, refl)
create_new_topics-Framed config env slug (spec ∷ specs) w =
    ground (
      arith,
      create_new_topics-Framed config env slug specs (create_infra_topic config slug spec w),
    )

pub delete_new_topics-Framed :
    (config : ServiceConfig) (slug : Text) (specs : List InfraTopicSpec) (w : World)
    → Framed w (delete_new_topics config slug specs w)
unfolding delete_new_topics call
delete_new_topics-Framed config slug [] w = (refl, refl)
delete_new_topics-Framed config slug (spec ∷ specs) w = delete_new_topics-Framed config slug specs _

pub move_quota-Framed :
    (env : Env) (t : Tenant) (new_slug : Text) (w : World) → Framed w (move_quota env t new_slug w)
unfolding move_quota call
move_quota-Framed env t new_slug w = ground arith

pub finish_rename-Framed :
    (env : Env) (t : Tenant) (new_slug : Text) (w : World)
    → Framed w (finish_rename env t new_slug w)
unfolding finish_rename emit_event call
finish_rename-Framed env t new_slug w =
    ground (arith, audit_log-Framed env t.id, move_quota-Framed env t new_slug)
