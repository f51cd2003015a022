-- ===== src/Kafka/Tests.antt =====
-- Concrete publishes.
use sukko.Common.{
  ◌≡◌, refl, ◌≢◌, ◌↔◌, Bool, true, false, some, none, Option, List, [], ◌∷◌, ◌++◌, ok, err, arith,
  All, nat_eq, list_eq, contains, Distinct, if◌then◌else◌, ◌==◌,
}
use sukko.Common.Int.{pos}
use sukko.Common.Text.{Text, codes, Lacks}
use sukko.Routing.{dot}
use sukko.Topics.{TopicRoutingRule, consume_topic_suffixes, scan_rows}
use sukko.Topics.Tests.{two_rules, two_rules_valid}
use sukko.Kafka.{
  build_topic_name, message_id, no_matching_route, produce_failed, extract_tenant, RulesSource,
  ProducePlan, routes, resolve_rules, KafkaBackend, channel_topic, Producer, acked, not_acked,
  Broker, publish, plan_of,
}
use sukko.Kafka.Targets.{FirstRule, IsTarget, resolve_rules-plan}
use sukko.Kafka.Agreement.{
  all_normalized, resolve-channel_topic, scan_rows-validated, plan_egress_never_consumed,
}
use sukko.Kafka.Publish.{Outcome, publish-Outcome}

abbrev acme : Text
acme = codes "acme"

abbrev eu_orders : Text
eu_orders = codes "acme.eu.orders"

abbrev prod : Text
prod = codes "prod"

abbrev source : RulesSource
source = record { snapshot_received = true; snapshots = (acme, scan_rows two_rules) ∷ [] }

abbrev producer : Producer
producer = record {
  topic_namespace = prod;
  rules_provider = some source;
  closed = false;
  has_fanout = true;
  messages_published = 0;
  messages_failed = 0;
  breaker_calls = 0;
  actions = [];
}

abbrev broker : Broker
broker = record { admits = true; produce_sync = λ topic. acked (pos 3) (pos 41) }

abbrev broken : Broker
broken = record { admits = true; produce_sync = λ topic. not_acked true }

abbrev plan : ProducePlan
plan = record {
  ingress_topic = codes "prod.acme.orders";
  egress_topics = codes "prod.acme.audit" ∷ codes "prod.acme.billing" ∷ [];
}

abbrev backend : KafkaBackend
backend = record { namespace = prod; has_pool = true; rules_provider = some source }

planned : resolve_rules prod acme eu_orders (scan_rows two_rules) ≡ ok plan
unfolding resolve_rules scan_rows sukko.Routing.match_routing_pattern sukko.Common.Text.split
    sukko.Routing.normalize_pattern sukko.Common.Text.join sukko.Routing.normalize_segments
    build_topic_name contains
planned = refl

published :
    (publish broker producer eu_orders).1
    ≡ ok (message_id (codes "prod.acme.orders") (pos 3) (pos 41))
unfolding publish extract_tenant sukko.Kafka.resolve_targets sukko.Common.Map.lookup scan_rows
    sukko.Routing.match_routing_pattern sukko.Common.Text.split sukko.Routing.normalize_pattern
    sukko.Common.Text.join sukko.Routing.normalize_segments sukko.Kafka.publish_plan contains
    build_topic_name
published = refl

failed : (publish broken producer eu_orders).1 ≡ err produce_failed
unfolding publish extract_tenant sukko.Kafka.resolve_targets sukko.Common.Map.lookup scan_rows
    sukko.Routing.match_routing_pattern sukko.Common.Text.split sukko.Routing.normalize_pattern
    sukko.Common.Text.join sukko.Routing.normalize_segments sukko.Kafka.publish_plan contains
    build_topic_name
failed = refl

resolve_rules-plan_example :
    (rule : TopicRoutingRule) × FirstRule eu_orders (scan_rows two_rules) rule
    × (plan.ingress_topic ≡ build_topic_name prod acme rule.ingress_topic)
    × (contains plan.egress_topics plan.ingress_topic ≡ false)
    × Distinct plan.egress_topics
    × ((topic : Text)
        → contains plan.egress_topics topic ≡ true
        → IsTarget prod acme rule.egress_topics topic)
resolve_rules-plan_example =
    resolve_rules-plan prod acme eu_orders (scan_rows two_rules) plan planned

resolve-channel_topic_example : channel_topic backend eu_orders ≡ some (codes "prod.acme.orders")
unfolding resolve_rules extract_tenant sukko.Kafka.resolve_targets sukko.Common.Map.lookup scan_rows
    sukko.Routing.match_routing_pattern sukko.Common.Text.split sukko.Routing.normalize_pattern
    sukko.Common.Text.join sukko.Routing.normalize_segments build_topic_name contains
resolve-channel_topic_example = resolve-channel_topic backend eu_orders acme plan refl refl refl

scan_rows-validated_example : scan_rows two_rules ≡ all_normalized two_rules
scan_rows-validated_example = scan_rows-validated two_rules (pos 10) (pos 5) two_rules_valid

plan_egress_never_consumed_example :
    codes "prod.acme.audit" ≢ build_topic_name prod acme (codes "orders")
unfolding contains consume_topic_suffixes
plan_egress_never_consumed_example =
    plan_egress_never_consumed prod acme eu_orders two_rules (pos 10) (pos 5) plan
      (codes "prod.acme.audit") (codes "orders") (ground arith) two_rules_valid planned refl refl

publish-Outcome_example :
    let (p', r) = publish broker producer eu_orders in Outcome broker producer eu_orders p' r
publish-Outcome_example = publish-Outcome broker producer eu_orders
