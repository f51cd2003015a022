-- ===== src/Tenants/Tests.antt =====
-- Concrete tenants: a table with one tenant, and calls that work, fail or meet.
use sukko.Common.{
  ℕ, ◌+◌, ◌≤◌, ◌<◌, ◌≡◌, ◌≢◌, ◌⊎◌, refl, inl, inr, Bool, true, false, Option, none, some, List, [],
  ◌∷◌, Result, ok, err, arith, nat_eq, list_eq, Distinct, Elem, any,
}
use sukko.Common.Int.{pos}
use sukko.Common.Text.{Text, codes}
use sukko.License.Limits.{community_limits}
use sukko.Tenants.{
  Tenant, TenantKey, status_active, status_suspended, rename_complete, rename_pending,
  consumer_shared,
}
use sukko.Tenants.Store.{
  unavailable, slug_already_taken, count, count_active, set_rename_state, select_with_grace,
}
use sukko.Tenants.KeyStore.{ApiKey, get_active_keys, get_active_api_keys}
use sukko.Tenants.Service.{
  ServiceConfig, StoreCall, create_tenant_row, store_failed, topic_created, Env, World, stored,
}
use sukko.Tenants.Create.{CreateTenantRequest, create_tenant, tenant_of}
use sukko.Tenants.Deletion.{deprovision_tenant}
use sukko.Tenants.Rename.{lock_result, pass_hold, rename_tenant}
use sukko.Tenants.History.{
  Operation, suspend, create, deprovision, sweep, start, perform_all, active_tenants_exact,
  never_back,
}
use sukko.Tenants.Rows.{ids}
use sukko.Tenants.Gauge.{Later}
use sukko.Tenants.Saga.{Restored, Kept, create_tenant-Restored}
use sukko.Tenants.EditionLimit.{
  CreateStage, admits, inserts, Creations, advance_all, Overlap, advance_all_bounded,
}
use sukko.Tenants.Access.{of_tenant, api_key_of}
use sukko.Tenants.ForceDelete.{told, force_delete-none_active, deprovision-silent}
use sukko.Tenants.Renaming.{Renamed, rename_tenant-Renamed}
use sukko.Tenants.Grace.{pass_hold-unlocks, create_tenant-ambiguous}

abbrev acme_slug : Text
acme_slug = codes "acme"

abbrev beta_slug : Text
beta_slug = codes "beta"

abbrev acme : Tenant
acme = record {
  id = codes "t-1";
  slug = acme_slug;
  name = codes "Acme";
  status = status_active;
  consumer_type = consumer_shared;
  metadata = [];
  previous_slug = [];
  slug_rename_state = none;
  slug_renamed_at = none;
  suspended_at = none;
  deprovision_at = none;
  deleted_at = none;
}

abbrev beta : Tenant
beta = record acme { id = codes "t-2"; slug = beta_slug; name = codes "Beta" }

-- The tenant `acme` under a new slug, in its hold period, and while another rename has its lock.
abbrev renamed : Tenant
renamed = record acme {
  slug = codes "acme-new";
  previous_slug = acme_slug;
  slug_rename_state = some rename_complete;
  slug_renamed_at = some 900;
}

abbrev locked_row : Tenant
locked_row = record renamed { slug_rename_state = some rename_pending }

abbrev config : ServiceConfig
config = record {
  topic_namespace = codes "prod";
  default_partitions = 3;
  default_retention_ms = 60_000;
  dead_letter_topic_partitions = 1;
  dead_letter_topic_retention_ms = 600_000;
  max_topics_per_tenant = 10;
  max_storage_bytes = 1000;
  default_producer_rate = 100;
  default_consumer_rate = 100;
  deprovision_grace_days = 7;
  slug_rename_topic_hold_period = 500;
  limits = some community_limits;
  has_routing_rules = true;
  has_api_keys = true;
  has_channel_rules = true;
}

abbrev env : Env
env = record {
  fails = λ c. false;
  topic_creation = λ name. topic_created;
  kafka_fails = λ c. false;
  now = 1000;
  new_id = codes "t-9";
  is_uuid = λ s. true;
}

abbrev row_fails : StoreCall → Bool
row_fails create_tenant_row = true
row_fails _ = false

abbrev broken : Env
broken = record env { fails = row_fails }

abbrev api_key : ApiKey
api_key = record {
  key_id = codes "pk_live_1";
  tenant_id = codes "t-1";
  name = codes "site";
  is_active = true;
  revoked_at = none;
}

abbrev signing_key : TenantKey
signing_key = record {
  key_id = codes "key-one";
  tenant_id = codes "t-1";
  algorithm = codes "ES256";
  public_key = codes "pem";
  is_active = true;
  expires_at = none;
  revoked_at = none;
}

abbrev with_tenants : List Tenant → World
with_tenants rows = record {
  tenants = rows;
  keys = signing_key ∷ [];
  api_keys = api_key ∷ [];
  routing_rules = [];
  channel_rules = [];
  quotas = [];
  kafka_calls = [];
  events = [];
  audit = [];
  audit_write_failures = 0;
  active_tenants = pos 1;
}

abbrev world : World
world = with_tenants (acme ∷ [])

abbrev request : CreateTenantRequest
request = record {
  slug = codes "gamma";
  name = codes "Gamma";
  consumer_type = [];
  metadata = [];
  public_key = none;
}

abbrev history : List (Env × Operation)
history =
    (env, suspend acme_slug)
    ∷ (env, create request)
    ∷ (env, deprovision acme_slug true)
    ∷ (env, sweep)
    ∷ []

abbrev after : World
after = perform_all config history world

active_tenants_exact_example :
    let w' = perform_all config history (start env world) in
    Distinct (ids w'.tenants) × (w'.active_tenants ≡ pos (count_active w'.tenants))
unfolding count_active sukko.Common.contains
active_tenants_exact_example = active_tenants_exact config env history world (refl, tt) refl refl

never_back_example : Later world.tenants after.tenants
unfolding count_active sukko.Common.contains
never_back_example = never_back config history world (refl, tt) refl

create_tenant-Restored_example :
    Restored broken (λ name. false) world (create_tenant config broken request world).0
    ⊎ Kept broken request world (create_tenant config broken request world).0
unfolding create_tenant sukko.Tenants.Create.admit_tenant sukko.Tenants.validate_tenant
    sukko.Tenants.matches_slug_pattern sukko.Tenants.is_reserved_slug
    sukko.License.Limits.check_tenants count sukko.Tenants.Create.provision_topics
    sukko.Tenants.Create.insert_tenant
create_tenant-Restored_example =
    create_tenant-Restored config broken (λ name. false) request world (store_failed unavailable)
      (λ name h. refl) (λ name. refl) refl

abbrev other_env : Env
other_env = record env { new_id = codes "t-8" }

abbrev other_request : CreateTenantRequest
other_request = record request { slug = codes "delta" }

-- Two calls that are both admitted below the limit of three tenants, and then both insert their row.
abbrev stages : List CreateStage
stages =
    admits env request
    ∷ admits other_env other_request
    ∷ inserts env request (true, true)
    ∷ inserts other_env other_request (true, true)
    ∷ []

abbrev creations : Creations
creations = record { world = with_tenants (acme ∷ beta ∷ []); pending = 0 }

over_limit : count (advance_all config stages creations).world.tenants ≡ 4
unfolding sukko.Tenants.Create.admit_tenant sukko.Tenants.validate_tenant
    sukko.Tenants.matches_slug_pattern sukko.Tenants.is_reserved_slug
    sukko.License.Limits.check_tenants count sukko.Tenants.Create.insert_tenant
    sukko.Tenants.Store.create_row
over_limit = refl

stages-Overlap : Overlap config 2 stages creations
unfolding sukko.Tenants.Create.admit_tenant sukko.Tenants.validate_tenant
    sukko.Tenants.matches_slug_pattern sukko.Tenants.is_reserved_slug
    sukko.License.Limits.check_tenants count sukko.Tenants.Create.insert_tenant
    sukko.Tenants.Store.create_row
stages-Overlap = (omega arith, (omega arith, (omega arith, (omega arith, omega arith))))

advance_all_bounded_example :
    let s' = advance_all config stages creations in count s'.world.tenants + s'.pending < 3 + 2
unfolding sukko.Tenants.Create.admit_tenant sukko.Tenants.validate_tenant
    sukko.Tenants.matches_slug_pattern sukko.Tenants.is_reserved_slug
    sukko.License.Limits.check_tenants count sukko.Tenants.Create.insert_tenant
    sukko.Tenants.Store.create_row
advance_all_bounded_example =
    advance_all_bounded config community_limits 3 2 stages creations refl refl (omega arith)
      stages-Overlap (omega arith)

force_delete-none_active_example :
    let w' = (deprovision_tenant config env acme_slug true world).0 in
    (any (of_tenant acme.id) (get_active_keys 2000 w'.keys) ≡ false)
    × (any (api_key_of acme.id) (get_active_api_keys w'.api_keys) ≡ false)
unfolding deprovision_tenant sukko.Tenants.Store.get_by_slug
    sukko.Tenants.Deletion.force_delete_tenant sukko.Tenants.Store.update_status
force_delete-none_active_example =
    force_delete-none_active config env acme_slug acme 2000 world refl refl refl refl refl refl
      (omega arith)

deprovision-silent_example :
    let w' = (deprovision_tenant config env acme_slug true world).0 in
    (told w'.events ≡ told world.events) × (true ≡ false → w'.api_keys ≡ world.api_keys)
deprovision-silent_example = deprovision-silent config env acme_slug true world

rename_tenant-Renamed_example :
    Renamed config 1000 acme
      (codes "acme-new")
      (rename_tenant config env acme_slug (codes "acme-new") world).0
unfolding rename_tenant sukko.Tenants.Store.get_by_slug sukko.Tenants.validate_slug
    sukko.Tenants.matches_slug_pattern sukko.Tenants.is_reserved_slug set_rename_state
    sukko.Tenants.Store.update_slug
rename_tenant-Renamed_example =
    rename_tenant-Renamed config env acme_slug (codes "acme-new") acme world refl (λ e. cc) refl

abbrev late : Env
late = record env { now = 2000 }

abbrev locked_world : World
locked_world = with_tenants (locked_row ∷ [])

pass_hold-unlocks_example :
    let w' = (pass_hold config late renamed locked_world).0 in
    let set = set_rename_state renamed.id rename_pending renamed.slug w'.tenants in
    (rows : List Tenant) × (lock_result (stored false set) ≡ ok rows)
pass_hold-unlocks_example =
    pass_hold-unlocks config late renamed 900 locked_world refl (omega arith) refl refl

abbrev two_tenants : World
two_tenants = with_tenants (acme ∷ beta ∷ [])

abbrev same_slug : CreateTenantRequest
same_slug = record request { slug = acme_slug }

abbrev renamed_world : World
renamed_world = with_tenants (renamed ∷ [])

create_tenant-ambiguous_example :
    let w' = (create_tenant config env same_slug renamed_world).0 in
    let rows = select_with_grace 1000 500 acme_slug w'.tenants in
    Elem renamed rows
    × Elem (tenant_of env same_slug) rows
    × (renamed.id ≢ (tenant_of env same_slug).id)
unfolding sukko.Tenants.Store.matches_with_grace create_tenant sukko.Tenants.Create.admit_tenant
    sukko.Tenants.validate_tenant sukko.Tenants.matches_slug_pattern sukko.Tenants.is_reserved_slug
    sukko.License.Limits.check_tenants count sukko.Tenants.Create.provision_topics
    sukko.Tenants.Create.insert_tenant sukko.Tenants.Store.create_row
    sukko.Tenants.Create.finish_tenant
create_tenant-ambiguous_example =
    create_tenant-ambiguous config env same_slug renamed (tenant_of env same_slug) 1000 500
      renamed_world (inl refl) refl refl
