-- ===== src/Kafka.antt =====
-- ws/internal/server/kafka/producer.go, the topic resolution of
-- ws/internal/server/backend/kafkabackend/kafkabackend.go, and topic and message names from
-- ws/internal/shared/kafka. The Kafka client and the circuit breaker are the argument `Broker`.
pub mod Names
pub mod Targets
pub mod Agreement
pub mod Publish
mod Tests
use Prim.Native.Nat.{bit_xor}
use sukko.Common.{
  ℕ, ◌+◌, ◌*◌, ◌%◌, ◌^◌, Bool, true, false, not, ◌&&◌, ◌||◌, Option, none, some, List, [], ◌∷◌,
  ◌++◌, Result, ok, err, ◌>>=◌, length, if◌then◌else◌, ltb, ◌==◌, nat_eq, list_eq, contains,
}
use sukko.Common.Map.{lookup}
use sukko.Common.Text.{Text, cut}
use sukko.Common.Decimal.{format_uint, format_int}
use sukko.Common.Int.{ℤ}
use sukko.Routing.{
  dot, dead_letter_topic_suffix, default_topic_suffix, RoutingError, match_routing_pattern,
}
use sukko.Topics.{TopicRoutingRule}

-- BuildTopicName.
unfoldable pub build_topic_name : Text → Text → Text → Text
build_topic_name namespace tenant suffix = namespace ++ (dot ∷ (tenant ++ (dot ∷ suffix)))

-- One byte of hash/fnv's New64a, and all bytes of the topic.
unfoldable pub fnv1a64 : ℕ → Text → ℕ
fnv1a64 h [] = h
fnv1a64 h (c ∷ s) = fnv1a64 ((bit_xor h c * 1_099_511_628_211) % 2 ^ 64) s

-- MessageID.
unfoldable pub message_id : Text → ℤ → ℤ → Text
unfolding fnv1a64
message_id topic partition offset =
    format_uint 16 (fnv1a64 14_695_981_039_346_656_037 topic)
    ++ (b'-' ∷ (format_int partition ++ (b'-' ∷ format_int offset)))

pub data PublishError : Type 0 where
  producer_closed invalid_channel publish_not_routable no_matching_route : PublishError
  service_unavailable publish_failed produce_failed : PublishError

-- ExtractTenant: the text in front of the first dot, which is not empty.
unfoldable pub extract_tenant : Text → Option Text
unfolding cut
extract_tenant channel = elim (cut dot channel) [
  | none ↦ none
  | some (tenant, rest) ↦ if tenant == [] then none else some tenant
]

-- RoutingRulesSource: whether the first snapshot has arrived, and the rules of each tenant.
pub record RulesSource : Type 0 where
  pub snapshot_received : Bool
  pub snapshots : List (Text × List TopicRoutingRule)

pub record ProducePlan : Type 0 where
  pub ingress_topic : Text
  pub egress_topics : List Text

-- An error of the matcher skips the rule, as a rule that does not match.
abbrev pub is_match : Result RoutingError Bool → Bool
is_match (ok matched) = matched
is_match (err e) = false

-- A rule that the loops of resolveTargets and ChannelTopic stop at.
unfoldable pub routes : Text → TopicRoutingRule → Bool
routes channel rule =
    is_match (match_routing_pattern rule.pattern channel) && not (rule.ingress_topic == [])

-- The inner loop of resolveTargets over the egress suffixes.
unfoldable pub egress_targets : Text → Text → List Text → List Text → List Text
egress_targets namespace tenant seen [] = []
egress_targets namespace tenant seen (suffix ∷ suffixes) =
    let name = build_topic_name namespace tenant suffix in
    let skip = egress_targets namespace tenant seen suffixes in
    let add = name ∷ egress_targets namespace tenant (name ∷ seen) suffixes in
    if suffix == []
    then skip
    else if suffix == default_topic_suffix || suffix == dead_letter_topic_suffix
    then skip
    else if contains seen name
    then skip
    else add

unfoldable pub plan_of : Text → Text → TopicRoutingRule → ProducePlan
unfolding egress_targets
plan_of namespace tenant rule =
    let delivery = build_topic_name namespace tenant rule.ingress_topic in
    record {
      ingress_topic = delivery;
      egress_topics = egress_targets namespace tenant (delivery ∷ []) rule.egress_topics;
    }

-- The outer loop of resolveTargets.
unfoldable pub resolve_rules :
    Text → Text → Text → List TopicRoutingRule → Result PublishError ProducePlan
unfolding routes plan_of
resolve_rules namespace tenant channel [] = err no_matching_route
resolve_rules namespace tenant channel (rule ∷ rules) =
    let rest = resolve_rules namespace tenant channel rules in
    if routes channel rule then ok (plan_of namespace tenant rule) else rest

unfoldable pub resolve_targets :
    Text → Option RulesSource → Text → Text → Result PublishError ProducePlan
unfolding resolve_rules
resolve_targets namespace none channel tenant = err publish_not_routable
resolve_targets namespace (some source) channel tenant =
    if not source.snapshot_received
    then err service_unavailable
    else elim (lookup tenant source.snapshots) [
      | none ↦ err publish_not_routable
      | some rules ↦
          if length rules == 0
          then err publish_not_routable
          else resolve_rules namespace tenant channel rules
    ]

-- The loop of KafkaBackend.ChannelTopic; without a match the default topic.
unfoldable pub topic_of_rules : Text → Text → Text → List TopicRoutingRule → Text
unfolding routes
topic_of_rules namespace tenant channel [] = build_topic_name namespace tenant default_topic_suffix
topic_of_rules namespace tenant channel (rule ∷ rules) =
    let rest = topic_of_rules namespace tenant channel rules in
    if routes channel rule then build_topic_name namespace tenant rule.ingress_topic else rest

-- What ChannelTopic reads of the backend.
pub record KafkaBackend : Type 0 where
  pub namespace : Text
  pub has_pool : Bool
  pub rules_provider : Option RulesSource

unfoldable pub channel_topic : KafkaBackend → Text → Option Text
unfolding topic_of_rules extract_tenant
channel_topic kb channel = elim kb.rules_provider [
  | none ↦ none
  | some source ↦
      if not kb.has_pool || not source.snapshot_received
      then none
      else elim (extract_tenant channel) [
        | none ↦ none
        | some tenant ↦ elim (lookup tenant source.snapshots) [
          | none ↦ some (build_topic_name kb.namespace tenant default_topic_suffix)
          | some rules ↦ some (topic_of_rules kb.namespace tenant channel rules)
        ]
      ]
]

-- What a call has done outside: a record that the broker has stored, and a copy that was submitted to
-- the fan-out pool.
pub data ProducerAction : Type 0 where
  stored_record submitted_copy : Text → ProducerAction

-- The producer's state, with what it has done outside, in order, and the number of the calls that
-- entered the circuit breaker.
pub record Producer : Type 0 where
  pub topic_namespace : Text
  pub rules_provider : Option RulesSource
  pub closed : Bool
  pub has_fanout : Bool
  pub messages_published : ℕ
  pub messages_failed : ℕ
  pub breaker_calls : ℕ
  pub actions : List ProducerAction

-- What franz-go reports of a synchronous write: the partition and the offset, or an error. An error
-- leaves open whether the broker has stored the record (the acknowledgement may be lost).
pub data ProduceResult : Type 0 where
  acked : ℤ → ℤ → ProduceResult
  not_acked : Bool → ProduceResult

-- gobreaker and franz-go: whether the breaker lets the call run, and the write to a topic.
pub record Broker : Type 0 where
  pub admits : Bool
  pub produce_sync : Text → ProduceResult

-- The loop that submits the egress copies.
unfoldable pub submit_copies : List Text → List ProducerAction
submit_copies [] = []
submit_copies (topic ∷ topics) = submitted_copy topic ∷ submit_copies topics

unfoldable pub do_produce : Broker → ProducePlan → Producer → Producer × Result PublishError Text
unfolding submit_copies
do_produce broker plan p = elim (broker.produce_sync plan.ingress_topic) [
  | not_acked was_stored ↦ (
    record p {
      messages_failed = p.messages_failed + 1;
      actions =
          if was_stored then p.actions ++ stored_record plan.ingress_topic ∷ [] else p.actions;
    },
    err produce_failed,
  )
  | acked partition offset ↦ (
    record p {
      messages_published = p.messages_published + 1;
      actions = p.actions ++ (stored_record plan.ingress_topic ∷ submit_copies plan.egress_topics);
    },
    ok (message_id plan.ingress_topic partition offset),
  )
]

-- Publish behind the resolution: the fan-out check and the circuit breaker.
unfoldable pub publish_plan : Broker → ProducePlan → Producer → Producer × Result PublishError Text
unfolding do_produce
publish_plan broker plan p =
    if ltb 0 (length plan.egress_topics) && not p.has_fanout
    then (record p { messages_failed = p.messages_failed + 1 }, err publish_failed)
    else if not broker.admits
    then (p, err service_unavailable)
    else do_produce broker plan (record p { breaker_calls = p.breaker_calls + 1 })

unfoldable pub publish : Broker → Producer → Text → Producer × Result PublishError Text
publish broker p channel =
    if p.closed then (p, err producer_closed) else elim (extract_tenant channel) [
      | none ↦ (p, err invalid_channel)
      | some tenant ↦ elim (resolve_targets p.topic_namespace p.rules_provider channel tenant) [
        | err e ↦ (p, err e)
        | ok plan ↦ publish_plan broker plan p
      ]
    ]
