-- ===== src/Topics/Tests.antt =====
-- Concrete runs of the routing rules.
use sukko.Common.{◌≡◌, refl, ◌↔◌, [], ◌∷◌, List, ok, err, nat_eq, list_eq, contains}
use sukko.Common.Int.{pos}
use sukko.Common.Text.{codes, split, join}
use sukko.Routing.{normalize_pattern, normalize_segments, match_routing_pattern}
use sukko.Topics.{
  TopicRoutingRule, deliveries, validate_rule_topics, reserved_topic_suffix, egress_ingress_overlap,
  validate_routing_pattern, invalid_routing_pattern, validate_routing_rules, consume_topic_suffixes,
  create_only_topic_suffixes,
}
use sukko.Topics.Validation.{IsRuleSet, validate_routing_rules_iff}

abbrev pub orders_rule : TopicRoutingRule
orders_rule = record {
  pattern = codes "acme.*.orders";
  ingress_topic = codes "orders";
  egress_topics = codes "audit" ∷ codes "billing" ∷ [];
  priority = pos 1;
}

abbrev pub trades_rule : TopicRoutingRule
trades_rule = record {
  pattern = codes "acme.trades";
  ingress_topic = codes "trades";
  egress_topics = codes "audit" ∷ [];
  priority = pos 2;
}

abbrev pub two_rules : List TopicRoutingRule
two_rules = orders_rule ∷ trades_rule ∷ []

-- An egress topic that the other rule delivers from.
abbrev looping_rules : List TopicRoutingRule
looping_rules = orders_rule ∷ record trades_rule { egress_topics = codes "orders" ∷ [] } ∷ []

pub two_rules_valid : validate_routing_rules two_rules (pos 10) (pos 5) ≡ ok tt
unfolding validate_routing_rules validate_rule_topics contains validate_routing_pattern split
    match_routing_pattern normalize_pattern join normalize_segments
    sukko.Topics.validate_egress_disjoint
two_rules_valid = refl

loop_refused : validate_routing_rules looping_rules (pos 10) (pos 5) ≡ err egress_ingress_overlap
unfolding validate_routing_rules validate_rule_topics contains validate_routing_pattern split
    match_routing_pattern normalize_pattern join normalize_segments
    sukko.Topics.validate_egress_disjoint
loop_refused = refl

reserved_refused :
    validate_rule_topics (record orders_rule { egress_topics = codes "default" ∷ [] }) (pos 5)
    ≡ err reserved_topic_suffix
unfolding validate_rule_topics
reserved_refused = refl

consumed : consume_topic_suffixes two_rules ≡ codes "default" ∷ codes "orders" ∷ codes "trades" ∷ []
unfolding consume_topic_suffixes contains
consumed = refl

created : create_only_topic_suffixes two_rules ≡ codes "audit" ∷ codes "billing" ∷ []
unfolding create_only_topic_suffixes contains consume_topic_suffixes
created = refl

validate_routing_rules_iff_example :
    (validate_routing_rules two_rules (pos 10) (pos 5) ≡ ok tt)
    ↔ IsRuleSet two_rules (pos 10) (pos 5)
validate_routing_rules_iff_example = validate_routing_rules_iff two_rules (pos 10) (pos 5)
