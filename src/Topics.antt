-- ===== src/Topics.antt =====
-- ws/internal/provisioning/topic_routing.go: a tenant's routing rules, their validation at write
-- time, and the two sets of topics that follow from them. The text of an error, and the rule's
-- index in it, is not modelled: an error is its sentinel.
pub mod Rule
pub mod Validation
pub mod Sets
pub mod Tests
use sukko.Common.{
  ℕ, suc, ◌+◌, Bool, true, ◌&&◌, ◌||◌, List, [], ◌∷◌, ◌++◌, Result, ok, err, ◌>>◌, length, all,
  if◌then◌else◌, ltb, leb, ◌==◌, nat_eq, list_eq, contains,
}
use sukko.Common.Int.{ℤ, pos, ltb_ℤ, int_eq}
use sukko.Common.Text.{Text, codes, split}
use sukko.Routing.{
  star, double_star, dot, dead_letter_topic_suffix, default_topic_suffix, normalize_pattern,
  match_routing_pattern,
}

pub record TopicRoutingRule : Type 0 where
  pub pattern : Text
  pub ingress_topic : Text
  pub egress_topics : List Text
  pub priority : ℤ

unfoldable pub all_topic_suffixes : TopicRoutingRule → List Text
all_topic_suffixes r = (r.ingress_topic ∷ []) ++ r.egress_topics

pub data TopicError : Type 0 where
  empty_routing_rules empty_routing_pattern missing_ingress_topic too_many_topics : TopicError
  duplicate_egress_topic reserved_topic_suffix egress_ingress_overlap : TopicError
  duplicate_routing_pattern duplicate_priority invalid_routing_pattern : TopicError
  too_many_routing_rules : TopicError

abbrev pub Checked : Type 0
Checked = Result TopicError (Unit {0})

abbrev pub max_routing_pattern_length : ℕ
max_routing_pattern_length = 256

-- The loop of validateRuleTopics over the egress topics.
unfoldable pub check_egress : Text → List Text → List Text → Checked
check_egress ingress seen [] = ok tt
check_egress ingress seen (suffix ∷ suffixes) =
    let rest = check_egress ingress (suffix ∷ seen) suffixes in
    if suffix == []
    then err reserved_topic_suffix
    else if suffix == default_topic_suffix || suffix == dead_letter_topic_suffix
    then err reserved_topic_suffix
    else if suffix == ingress
    then err egress_ingress_overlap
    else if contains seen suffix
    then err duplicate_egress_topic
    else rest

unfoldable pub validate_rule_topics : TopicRoutingRule → ℤ → Checked
unfolding check_egress
validate_rule_topics rule max_topics =
    if rule.ingress_topic == []
    then err missing_ingress_topic
    else if rule.ingress_topic == dead_letter_topic_suffix
    then err reserved_topic_suffix
    else if ltb_ℤ (pos 0) max_topics && ltb_ℤ max_topics (pos (1 + length rule.egress_topics))
    then err too_many_topics
    else check_egress rule.ingress_topic [] rule.egress_topics

-- literalSegmentRegex, `^[a-z0-9-]+$`.
unfoldable pub is_literal_byte : ℕ → Bool
is_literal_byte c = leb b'a' c && leb c b'z' || leb b'0' c && leb c b'9' || c == b'-'

unfoldable pub is_literal_segment : Text → Bool
unfolding is_literal_byte
is_literal_segment seg = ltb 0 (length seg) && all is_literal_byte seg

unfoldable pub check_segments : List Text → Checked
unfolding is_literal_segment
check_segments [] = ok tt
check_segments (seg ∷ segs) =
    let rest = check_segments segs in
    if seg == star || seg == double_star
    then rest
    else if is_literal_segment seg
    then rest
    else err invalid_routing_pattern

abbrev pub probe : Text
probe = codes "probe"

unfoldable pub validate_routing_pattern : Text → Checked
unfolding check_segments
validate_routing_pattern pattern =
    if ltb max_routing_pattern_length (length pattern) then err invalid_routing_pattern else do
      check_segments (split dot pattern)
      elim (match_routing_pattern (normalize_pattern pattern) probe) [
        | err e ↦ err invalid_routing_pattern
        | ok matched ↦ ok tt
      ]

-- The loops of ValidateEgressDisjoint.
unfoldable pub deliveries : List TopicRoutingRule → List Text
deliveries [] = []
deliveries (rule ∷ rules) = rule.ingress_topic ∷ deliveries rules

unfoldable pub check_clash : List Text → List Text → Checked
check_clash delivered [] = ok tt
check_clash delivered (suffix ∷ suffixes) =
    if contains delivered suffix then err egress_ingress_overlap else check_clash delivered suffixes

unfoldable pub check_clashes : List Text → List TopicRoutingRule → Checked
unfolding check_clash
check_clashes delivered [] = ok tt
check_clashes delivered (rule ∷ rules) = do
  check_clash delivered rule.egress_topics
  check_clashes delivered rules

unfoldable pub validate_egress_disjoint : List TopicRoutingRule → Checked
unfolding deliveries check_clashes
validate_egress_disjoint rules = check_clashes (deliveries rules) rules

-- The loop of ValidateRoutingRules.
unfoldable pub check_rules : ℤ → List Text → List ℤ → List TopicRoutingRule → Checked
check_rules max_topics seen_patterns seen_priorities [] = ok tt
check_rules max_topics seen_patterns seen_priorities (rule ∷ rules) =
    let rest =
      check_rules max_topics (rule.pattern ∷ seen_patterns) (rule.priority ∷ seen_priorities)
        rules in
    if rule.pattern == [] then err empty_routing_pattern else do
      validate_rule_topics rule max_topics
      if contains seen_patterns rule.pattern
          then err duplicate_routing_pattern
          else if contains seen_priorities rule.priority
          then err duplicate_priority
          else (validate_routing_pattern rule.pattern >> rest)

unfoldable pub validate_routing_rules : List TopicRoutingRule → ℤ → ℤ → Checked
unfolding check_rules
validate_routing_rules rules max_rules max_topics =
    if length rules == 0
    then err empty_routing_rules
    else if ltb_ℤ (pos 0) max_rules && ltb_ℤ max_rules (pos (length rules))
    then err too_many_routing_rules
    else (check_rules max_topics [] [] rules >> validate_egress_disjoint rules)

-- The loop of ConsumeTopicSuffixes: what it appends to the default topic.
unfoldable pub consume_from : List Text → List TopicRoutingRule → List Text
consume_from seen [] = []
consume_from seen (rule ∷ rules) =
    let skip = consume_from seen rules in
    let add = rule.ingress_topic ∷ consume_from (rule.ingress_topic ∷ seen) rules in
    if rule.ingress_topic == []
    then skip
    else if contains seen rule.ingress_topic
    then skip
    else add

unfoldable pub consume_topic_suffixes : List TopicRoutingRule → List Text
unfolding consume_from
consume_topic_suffixes rules = default_topic_suffix ∷ consume_from (default_topic_suffix ∷ []) rules

-- The inner loop of CreateOnlyTopicSuffixes: the suffixes that it appends, and `seen` after it.
unfoldable pub create_from : List Text → List Text → List Text → List Text × List Text
create_from consumed seen [] = ([], seen)
create_from consumed seen (suffix ∷ suffixes) =
    let skip = create_from consumed seen suffixes in
    let add = create_from consumed (suffix ∷ seen) suffixes in
    if suffix == []
    then skip
    else if contains consumed suffix
    then skip
    else if contains seen suffix
    then skip
    else (suffix ∷ add.0, add.1)

unfoldable pub create_rules : List Text → List Text → List TopicRoutingRule → List Text
unfolding create_from
create_rules consumed seen [] = []
create_rules consumed seen (rule ∷ rules) =
    let (suffixes, seen') = create_from consumed seen rule.egress_topics in
    suffixes ++ create_rules consumed seen' rules

unfoldable pub create_only_topic_suffixes : List TopicRoutingRule → List Text
unfolding create_rules
create_only_topic_suffixes rules = create_rules (consume_topic_suffixes rules) [] rules

-- scanRows of ws/internal/provisioning/repository/routing_rules.go, behind the database: a row whose
-- normalised pattern cannot be matched is left out.
unfoldable pub scan_rows : List TopicRoutingRule → List TopicRoutingRule
scan_rows [] = []
scan_rows (row ∷ rows) =
    let normalized = normalize_pattern row.pattern in
    let rest = scan_rows rows in
    elim (match_routing_pattern normalized probe) [
      | err e ↦ rest
      | ok matched ↦ record row { pattern = normalized } ∷ rest
    ]
