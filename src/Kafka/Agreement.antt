-- ===== src/Kafka/Agreement.antt =====
-- What is published can be read back, and what is copied is never consumed.
use sukko.Common.{
  ◌≡◌, refl, sym, ap, ◌∙◌, ◌≢◌, inl, inr, true, some, List, [], ◌∷◌, ◌++◌, ok, arith, nat_eq,
  list_eq, contains, contains-append, All, Option-cases,
}
use sukko.Common.Int.{ℤ}
use sukko.Common.Map.{lookup}
use sukko.Common.Text.{Text, Lacks}
use sukko.Routing.{dot, normalize_pattern}
use sukko.Topics.{
  TopicRoutingRule, probe, scan_rows, validate_routing_rules, consume_topic_suffixes,
}
use sukko.Topics.Rule.{validate_routing_pattern-ok, validate_routing_pattern-match}
use sukko.Topics.Validation.{IsRule, validate_routing_rules_iff}
use sukko.Topics.Sets.{egress, validated_egress}
use sukko.Kafka.{
  ProducePlan, KafkaBackend, build_topic_name, extract_tenant, plan_of, resolve_rules,
  resolve_targets, topic_of_rules, channel_topic,
}
use sukko.Kafka.Names.{build_topic_name_injective}
use sukko.Kafka.Targets.{resolve_rules-plan}

topic_of_rules-ingress :
    (namespace tenant channel : Text) (rules : List TopicRoutingRule) (plan : ProducePlan)
    → resolve_rules namespace tenant channel rules ≡ ok plan
    → topic_of_rules namespace tenant channel rules ≡ plan.ingress_topic
unfolding resolve_rules topic_of_rules plan_of
topic_of_rules-ingress namespace tenant channel [] plan h = absurd (ground arith)
topic_of_rules-ingress namespace tenant channel (rule ∷ rules) plan h =
    ground (arith, topic_of_rules-ingress namespace tenant channel rules plan)

-- Replay and history look a channel up in the topic that a publish to it writes: where the
-- producer resolves a channel to a plan, a backend with the same namespace and rules, whose
-- consumer is enabled, resolves it to the plan's ingress topic.
pub resolve-channel_topic :
    (kb : KafkaBackend) (channel tenant : Text) (plan : ProducePlan)
    → kb.has_pool ≡ true
    → extract_tenant channel ≡ some tenant
    → resolve_targets kb.namespace kb.rules_provider channel tenant ≡ ok plan
    → channel_topic kb channel ≡ some plan.ingress_topic
unfolding resolve_targets channel_topic
resolve-channel_topic kb channel tenant plan pool named h = elim (Option-cases kb.rules_provider) [
  | inl missing ↦ absurd (ground arith)
  | inr (source, present) ↦ elim (Option-cases (lookup tenant source.snapshots)) [
    | inl unknown ↦ absurd (ground arith)
    | inr (rules, found) ↦
        ground (arith, topic_of_rules-ingress kb.namespace tenant channel rules plan)
  ]
]

abbrev pub normalized : TopicRoutingRule → TopicRoutingRule
normalized rule = record rule { pattern = normalize_pattern rule.pattern }

abbrev pub all_normalized : List TopicRoutingRule → List TopicRoutingRule
all_normalized [] = []
all_normalized (rule ∷ rules) = normalized rule ∷ all_normalized rules

scan_rows-valid :
    (max_topics : ℤ) (rules : List TopicRoutingRule)
    → All (IsRule max_topics) rules
    → scan_rows rules ≡ all_normalized rules
unfolding scan_rows
scan_rows-valid max_topics [] h = refl
scan_rows-valid max_topics (rule ∷ rules) h =
    let accepted = (validate_routing_pattern-ok rule.pattern).1 h.0.2 in
    let (matched, e) = validate_routing_pattern-match rule.pattern probe accepted in
    ground (arith, e, scan_rows-valid max_topics rules h.1)

-- Reading back a rule set that passed the validation loses no rule: each is there, in its place,
-- with its pattern normalised.
pub scan_rows-validated :
    (rules : List TopicRoutingRule) (max_rules max_topics : ℤ)
    → validate_routing_rules rules max_rules max_topics ≡ ok tt
    → scan_rows rules ≡ all_normalized rules
scan_rows-validated rules max_rules max_topics valid =
    scan_rows-valid max_topics rules
      ((validate_routing_rules_iff rules max_rules max_topics).0 valid).2

egress-normalized : (rules : List TopicRoutingRule) → egress (all_normalized rules) ≡ egress rules
egress-normalized [] = refl
egress-normalized (rule ∷ rules) = ap (◌++◌ rule.egress_topics) (egress-normalized rules)

egress-part :
    (before after : List TopicRoutingRule) (rule : TopicRoutingRule) (suffix : Text)
    → contains rule.egress_topics suffix ≡ true
    → contains (egress (before ++ (rule ∷ after))) suffix ≡ true
egress-part [] after rule suffix h =
    ground (arith, contains-append rule.egress_topics (egress after) suffix)
egress-part (r ∷ before) after rule suffix h = ground (
  arith,
  contains-append r.egress_topics (egress (before ++ (rule ∷ after))) suffix,
  egress-part before after rule suffix h,
)

-- Where the rules of a tenant, whose name has no dot, passed the validation and were read back, no
-- egress topic of a resolved plan is one of the topics that are consumed for the tenant.
pub plan_egress_never_consumed :
    (namespace tenant channel : Text) (rules : List TopicRoutingRule) (max_rules max_topics : ℤ)
    (plan : ProducePlan) (topic suffix : Text)
    → Lacks dot tenant
    → validate_routing_rules rules max_rules max_topics ≡ ok tt
    → resolve_rules namespace tenant channel (scan_rows rules) ≡ ok plan
    → contains plan.egress_topics topic ≡ true
    → contains (consume_topic_suffixes rules) suffix ≡ true
    → topic ≢ build_topic_name namespace tenant suffix
plan_egress_never_consumed namespace tenant channel rules max_rules max_topics plan topic suffix
      lacks valid h copied consumed clash =
    let (rule, first, _, _, _, targets) =
      resolve_rules-plan namespace tenant channel (scan_rows rules) plan h in
    let (s, named, listed, _, _, _) = targets topic copied in
    let same =
      (build_topic_name_injective namespace tenant tenant s suffix lacks lacks
        (sym named ∙ clash)).1 in
    let stored = scan_rows-validated rules max_rules max_topics valid in
    let all : egress (first.before ++ (rule ∷ first.after)) ≡ egress rules =
      ap egress (sym first.whole ∙ stored) ∙ egress-normalized rules in
    let in_rules : contains (egress rules) s ≡ true =
      sym (ap (λ xs. contains xs s) all) ∙ egress-part first.before first.after rule s listed in
    let apart = validated_egress rules max_rules max_topics s valid in_rules in
    ground (arith, apart.0, consumed, ap (contains (consume_topic_suffixes rules)) same)
