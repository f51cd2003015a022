-- ===== src/Webhooks.antt =====
-- ws/internal/webhook/worker: the cache of a worker (cache.go). The calls of the same tenant are taken
-- one after another; `fetched` is the answer of the provisioning service. A webhook is without its
-- encrypted secret and its time of the last delivery.
pub mod Runner
pub mod Drain
pub mod Overflow
pub mod Routes
mod Tests
use sukko.Common.{
  ℕ, Bool, true, false, Option, none, some, List, [], ◌∷◌, if◌then◌else◌, ◌==◌, nat_eq, list_eq,
}
use sukko.Common.Map.{lookup, insert}
use sukko.Common.Text.{Text, codes}

pub record WebhookRecord : Type 0 where
  pub id : Text
  pub tenant_id : Text
  pub url : Text
  pub channel_pattern : Text
  pub status : Text
  pub max_retries : ℕ

abbrev pub webhook_status_enabled : Text
webhook_status_enabled = codes "enabled"

abbrev pub webhook_status_degraded : Text
webhook_status_degraded = codes "degraded"

abbrev pub webhook_status_suspended : Text
webhook_status_suspended = codes "suspended"

pub record WebhookCache : Type 0 where
  pub records : List (Text × List WebhookRecord)
  pub slug_to_uuid : List (Text × Text)

abbrev pub or_no_records : Option (List WebhookRecord) → List WebhookRecord
or_no_records none = []
or_no_records (some records) = records

-- Get.
unfoldable pub get_records : Text → WebhookCache → List WebhookRecord
unfolding lookup
get_records tenant_id c = or_no_records (lookup tenant_id c.records)

-- GetBySlug.
unfoldable pub get_records_by_slug : Text → WebhookCache → List WebhookRecord
unfolding lookup get_records
get_records_by_slug slug c = elim (lookup slug c.slug_to_uuid) [
  | none ↦ []
  | some uuid ↦ get_records uuid c
]

unfoldable pub find_record : Text → List WebhookRecord → Option WebhookRecord
find_record id [] = none
find_record id (r ∷ records) =
    let rest = find_record id records in if r.id == id then some r else rest

-- GetByID.
unfoldable pub get_by_id : Text → Text → WebhookCache → Option WebhookRecord
unfolding find_record get_records
get_by_id tenant_id id c = find_record id (get_records tenant_id c)

-- The loop of fetchAndStore that drops the slugs of a tenant.
unfoldable pub drop_slugs : Text → List (Text × Text) → List (Text × Text)
drop_slugs tenant_id [] = []
drop_slugs tenant_id ((slug, uuid) ∷ slugs) =
    let rest = drop_slugs tenant_id slugs in if uuid == tenant_id then rest else (slug, uuid) ∷ rest

unfoldable pub fetch_and_store :
    Text → Option (List WebhookRecord × Text) → WebhookCache → WebhookCache
unfolding insert drop_slugs
fetch_and_store tenant_id none c = c
fetch_and_store tenant_id (some (fetched, slug)) c =
    let slugs = drop_slugs tenant_id c.slug_to_uuid in
    record {
      records = insert tenant_id fetched c.records;
      slug_to_uuid = if slug == [] then slugs else insert slug tenant_id slugs;
    }
