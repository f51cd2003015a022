-- ===== src/Topics/Validation.antt =====
-- ValidateRoutingRules accepts exactly the rule sets that meet a list of conditions.
use sukko.Common.{
  ◌≡◌, refl, ◌≢◌, ◌↔◌, false, List, [], ◌∷◌, ok, arith, length, nat_eq, list_eq, eq_iff, contains,
  Distinct, Fresh, Fresh-nil, Fresh-cons, All,
}
use sukko.Common.Int.{ℤ, int_eq}
use sukko.Common.Text.{Text}
use sukko.Topics.{
  TopicRoutingRule, check_clash, check_clashes, deliveries, validate_egress_disjoint, check_rules,
  validate_routing_rules,
}
use sukko.Topics.Rule.{
  Within, HasValidTopics, IsPattern, validate_rule_topics-ok, validate_routing_pattern-ok,
}

check_clash-ok :
    (delivered suffixes : List Text)
    → (check_clash delivered suffixes ≡ ok tt) ↔ Fresh delivered suffixes
unfolding check_clash
check_clash-ok delivered [] = (λ h. tt, λ h. refl)
check_clash-ok delivered (suffix ∷ suffixes) = ground (arith, check_clash-ok delivered suffixes)

abbrev pub AvoidAll : List Text → List TopicRoutingRule → Type 0
AvoidAll topics rules = All (λ rule. Fresh topics rule.egress_topics) rules

pub check_clashes-ok :
    (delivered : List Text) (rules : List TopicRoutingRule)
    → (check_clashes delivered rules ≡ ok tt) ↔ AvoidAll delivered rules
unfolding check_clashes
check_clashes-ok delivered [] = (λ h. tt, λ h. refl)
check_clashes-ok delivered (rule ∷ rules) =
    ground (arith, check_clashes-ok delivered rules, check_clash-ok delivered rule.egress_topics)

abbrev pub patterns : List TopicRoutingRule → List Text
patterns [] = []
patterns (rule ∷ rules) = rule.pattern ∷ patterns rules

abbrev pub priorities : List TopicRoutingRule → List ℤ
priorities [] = []
priorities (rule ∷ rules) = rule.priority ∷ priorities rules

abbrev pub IsRule : ℤ → TopicRoutingRule → Type 0
IsRule max_topics rule =
    (rule.pattern ≢ []) × HasValidTopics rule max_topics × IsPattern rule.pattern

check-IsRule :
    (max_topics : ℤ) (rule : TopicRoutingRule) (seen_patterns : List Text)
    (seen_priorities : List ℤ) (rules : List TopicRoutingRule)
    → (check_rules max_topics seen_patterns seen_priorities (rule ∷ rules) ≡ ok tt) ↔ (
        IsRule max_topics rule
        × (contains seen_patterns rule.pattern ≡ false)
        × (contains seen_priorities rule.priority ≡ false)
        × (check_rules max_topics
              (rule.pattern ∷ seen_patterns)
              (rule.priority ∷ seen_priorities)
              rules
            ≡ ok tt))
unfolding check_rules
check-IsRule max_topics rule seen_patterns seen_priorities rules = ground (
  arith,
  eq_iff rule.pattern [],
  validate_rule_topics-ok rule max_topics,
  validate_routing_pattern-ok rule.pattern,
)

check_no_rules :
    (max_topics : ℤ) (seen_patterns : List Text) (seen_priorities : List ℤ)
    → check_rules max_topics seen_patterns seen_priorities [] ≡ ok tt
unfolding check_rules
check_no_rules max_topics seen_patterns seen_priorities = refl

check_rules-ok :
    (max_topics : ℤ) (seen_patterns : List Text) (seen_priorities : List ℤ)
    (rules : List TopicRoutingRule)
    → (check_rules max_topics seen_patterns seen_priorities rules ≡ ok tt) ↔ (
        All (IsRule max_topics) rules
        × (Fresh seen_patterns (patterns rules) × Distinct (patterns rules))
        × (Fresh seen_priorities (priorities rules) × Distinct (priorities rules)))
check_rules-ok max_topics seen_patterns seen_priorities [] =
    (λ h. (tt, (tt, tt), (tt, tt)), λ h. check_no_rules max_topics seen_patterns seen_priorities)
check_rules-ok max_topics seen_patterns seen_priorities (rule ∷ rules) =
    let ps = rule.pattern ∷ seen_patterns in
    let ns = rule.priority ∷ seen_priorities in
    ground (
      arith,
      check-IsRule max_topics rule seen_patterns seen_priorities rules,
      check_rules-ok max_topics ps ns rules,
      Fresh-cons rule.pattern seen_patterns (patterns rules),
      Fresh-cons rule.priority seen_priorities (priorities rules),
    )

-- What a rule set must meet: between one and `max_rules` rules, each valid, no pattern and no
-- priority twice, and no egress topic that is the ingress topic of any rule.
abbrev pub IsRuleSet : List TopicRoutingRule → ℤ → ℤ → Type 0
IsRuleSet rules max_rules max_topics =
    (rules ≢ [])
    × Within max_rules (length rules)
    × All (IsRule max_topics) rules
    × Distinct (patterns rules)
    × Distinct (priorities rules)
    × AvoidAll (deliveries rules) rules

-- ValidateRoutingRules accepts a rule set exactly when it is not empty and within `max_rules`, where
-- that is positive; each rule has a pattern that is valid, an ingress topic that is not the
-- dead-letter topic, at most `max_topics` topics, where that is positive, and distinct egress topics,
-- none empty, reserved or its ingress topic; no pattern and no priority occurs twice; and no egress
-- topic is the ingress topic of any rule.
pub validate_routing_rules_iff :
    (rules : List TopicRoutingRule) (max_rules max_topics : ℤ)
    → (validate_routing_rules rules max_rules max_topics ≡ ok tt)
      ↔ IsRuleSet rules max_rules max_topics
unfolding validate_routing_rules validate_egress_disjoint
validate_routing_rules_iff [] max_rules max_topics = ground arith
validate_routing_rules_iff (rule ∷ rules) max_rules max_topics = ground (
  arith,
  check_rules-ok max_topics [] [] (rule ∷ rules),
  Fresh-nil (patterns (rule ∷ rules)),
  Fresh-nil (priorities (rule ∷ rules)),
  check_clashes-ok (deliveries (rule ∷ rules)) (rule ∷ rules),
)
