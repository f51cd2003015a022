-- ===== src/Webhooks/Tests.antt =====
-- Concrete webhooks: a worker whose endpoint fails, a queue that is full and a tenant that is renamed.
use sukko.Common.{
  true, false, ℕ, ◌≡◌, refl, Bool, not, ◌&&◌, Option, none, some, List, [], ◌∷◌, arith,
  if◌then◌else◌, ◌==◌, nat_eq, list_eq, Distinct,
}
use sukko.Common.Map.{lookup}
use sukko.Common.Text.{codes}
use sukko.Webhooks.{
  WebhookRecord, webhook_status_enabled, WebhookCache, get_records_by_slug, fetch_and_store,
}
use sukko.Webhooks.Runner.{
  DeliveryTask, label_failure, RunnerConfig, Runner, Env, Turn, drop_oldest, delivery_worker,
  retry_delay,
}
use sukko.Webhooks.Drain.{TurnAlone, AllAlone, delivery_worker-drains}
use sukko.Webhooks.Overflow.{IsAlone, Overflowed, drop_oldest-Overflowed}
use sukko.Webhooks.Routes.{slugs_of, other_tenant, records_of, fetch_and_store-routes}

abbrev hook : WebhookRecord
hook = record {
  id = codes "w-1";
  tenant_id = codes "t-1";
  url = codes "https://example.org";
  channel_pattern = codes "**";
  status = webhook_status_enabled;
  max_retries = 3;
}

abbrev cache : WebhookCache
cache = record {
  records = (codes "t-1", hook ∷ []) ∷ [];
  slug_to_uuid = (codes "acme", codes "t-1") ∷ [];
}

abbrev config : RunnerConfig
config = record {
  intake_size = 8;
  retry_queue_size = 2;
  worker_concurrency = 2;
  first_delay = 1;
  retry_schedule = 1 ∷ 5 ∷ 30 ∷ 120 ∷ 600 ∷ [];
}

delays : retry_delay config 3 ≡ 30
unfolding retry_delay
delays = refl

late_delay : retry_delay config 9 ≡ 600
unfolding retry_delay
late_delay = refl

abbrev failing : Env
failing = record { cache = cache; dispatch = λ task. label_failure; clock = 100; others = λ n. [] }

-- A turn whose second select takes an event where there is one, and one that takes a retry.
abbrev event_turn : Turn
event_turn = record { first_env = failing; second_env = failing; event_first = true }

abbrev retry_turn : Turn
retry_turn = record event_turn { event_first = false }

abbrev turns : List Turn
turns =
    event_turn ∷ retry_turn ∷ event_turn ∷ retry_turn ∷ event_turn ∷ retry_turn ∷ event_turn
    ∷ retry_turn ∷ []

alone : AllAlone turns
alone =
    let none_ : IsAlone failing = λ n. refl in
    let both : TurnAlone event_turn = (none_, none_) in
    (both, (both, (both, (both, (both, (both, (both, (both, tt))))))))

abbrev task : DeliveryTask
task = record {
  webhook_id = codes "w-1";
  tenant_id = codes "t-1";
  payload = [];
  attempt = 1;
  max_retries = 3;
  next_at = 10;
  mid = [];
}

abbrev later_task : DeliveryTask
later_task = record task { attempt = 2; next_at = 90 }

abbrev runner : Runner
runner = record {
  intake = task ∷ [];
  retry_queue = later_task ∷ task ∷ [];
  status_updates = [];
  degraded_timers = [];
  deliveries = [];
}

delivery_worker-drains_example :
    let r' = delivery_worker config turns runner in (r'.retry_queue ≡ []) × (r'.intake ≡ [])
delivery_worker-drains_example = delivery_worker-drains config turns runner alone (omega arith)

drop_oldest-Overflowed_example :
    Overflowed config failing task runner (drop_oldest config failing task runner)
drop_oldest-Overflowed_example =
    drop_oldest-Overflowed config failing task later_task (task ∷ []) runner refl

abbrev renamed_cache : WebhookCache
renamed_cache = fetch_and_store (codes "t-1") (some (hook ∷ [], codes "acme-new")) cache

fetch_and_store-routes_example :
    Distinct (slugs_of renamed_cache.slug_to_uuid)
    × (get_records_by_slug (codes "acme") renamed_cache ≡ (
        if codes "acme" == codes "acme-new" && not (codes "acme-new" == [])
        then hook ∷ []
        else records_of cache
            (other_tenant (codes "t-1") (lookup (codes "acme") cache.slug_to_uuid))))
unfolding sukko.Common.contains
fetch_and_store-routes_example =
    fetch_and_store-routes (codes "t-1") (codes "acme-new") (codes "acme") (hook ∷ []) cache
      (refl, tt)
