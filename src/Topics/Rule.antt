-- ===== src/Topics/Rule.antt =====
-- What one routing rule must meet to pass the validation, and what a valid pattern is good for.
use sukko.Common.{
  ℕ, ◌+◌, ◌≤◌, ◌≡◌, refl, ◌≢◌, ◌↔◌, ◌⊎◌, Bool, true, List, [], ◌∷◌, Result, ok, err, arith, length,
  nat_eq, list_eq, eq_iff, Distinct, Fresh, Fresh-nil, Fresh-cons, All,
}
use sukko.Common.Int.{ℤ, pos, ◌≤ℤ◌, int_eq}
use sukko.Common.Text.{Text, split}
use sukko.Routing.{
  star, double_star, dot, dead_letter_topic_suffix, default_topic_suffix, normalize_pattern,
  match_routing_pattern, RoutingError, multiple_double_wildcard,
}
use sukko.Routing.Segments.{doubles}
use sukko.Routing.Matching.{match_error_iff}
use sukko.Topics.{
  TopicRoutingRule, check_egress, validate_rule_topics, is_literal_segment, check_segments, probe,
  validate_routing_pattern, max_routing_pattern_length,
}

-- A limit that is not positive does not bind.
abbrev pub Within : ℤ → ℕ → Type 0
Within max n = (max ≤ℤ pos 0) ⊎ (pos n ≤ℤ max)

-- What may stand among the egress topics of a rule with the given ingress topic.
abbrev pub IsEgress : Text → Text → Type 0
IsEgress ingress suffix =
    (suffix ≢ [])
    × (suffix ≢ default_topic_suffix)
    × (suffix ≢ dead_letter_topic_suffix)
    × (suffix ≢ ingress)

pub check_egress-ok :
    (ingress : Text) (seen suffixes : List Text)
    → (check_egress ingress seen suffixes ≡ ok tt)
      ↔ (All (IsEgress ingress) suffixes × Fresh seen suffixes × Distinct suffixes)
unfolding check_egress
check_egress-ok ingress seen [] = (λ h. (tt, tt, tt), λ h. refl)
check_egress-ok ingress seen (suffix ∷ suffixes) = ground (
  arith,
  check_egress-ok ingress (suffix ∷ seen) suffixes,
  Fresh-cons suffix seen suffixes,
  eq_iff suffix [],
  eq_iff suffix default_topic_suffix,
  eq_iff suffix dead_letter_topic_suffix,
  eq_iff suffix ingress,
)

abbrev pub HasValidTopics : TopicRoutingRule → ℤ → Type 0
HasValidTopics rule max_topics =
    (rule.ingress_topic ≢ [])
    × (rule.ingress_topic ≢ dead_letter_topic_suffix)
    × Within max_topics (1 + length rule.egress_topics)
    × All (IsEgress rule.ingress_topic) rule.egress_topics
    × Distinct rule.egress_topics

pub validate_rule_topics-ok :
    (rule : TopicRoutingRule) (max_topics : ℤ)
    → (validate_rule_topics rule max_topics ≡ ok tt) ↔ HasValidTopics rule max_topics
unfolding validate_rule_topics
validate_rule_topics-ok rule max_topics = ground (
  arith,
  check_egress-ok rule.ingress_topic [] rule.egress_topics,
  Fresh-nil rule.egress_topics,
  eq_iff rule.ingress_topic [],
  eq_iff rule.ingress_topic dead_letter_topic_suffix,
)

abbrev pub IsSegment : Text → Type 0
IsSegment seg = (seg ≡ star) ⊎ (seg ≡ double_star) ⊎ (is_literal_segment seg ≡ true)

check_segments-ok : (segs : List Text) → (check_segments segs ≡ ok tt) ↔ All IsSegment segs
unfolding check_segments
check_segments-ok [] = (λ h. tt, λ h. refl)
check_segments-ok (seg ∷ segs) =
    ground (arith, check_segments-ok segs, eq_iff seg star, eq_iff seg double_star)

-- A pattern that can be stored: its segments are wildcards or literals, and normalising it leaves
-- at most one `**`.
abbrev pub IsPattern : Text → Type 0
IsPattern pattern =
    (length pattern ≤ max_routing_pattern_length)
    × All IsSegment (split dot pattern)
    × (doubles (split dot (normalize_pattern pattern)) ≤ 1)

pub validate_routing_pattern-ok :
    (pattern : Text) → (validate_routing_pattern pattern ≡ ok tt) ↔ IsPattern pattern
unfolding validate_routing_pattern
validate_routing_pattern-ok pattern = ground (
  arith,
  check_segments-ok (split dot pattern),
  match_error_iff (normalize_pattern pattern) probe,
)

-- A pattern that passes the validation never makes the matcher fail, on any channel, once it is
-- normalised as the repository normalises it.
pub validate_routing_pattern-match :
    (pattern channel : Text)
    → validate_routing_pattern pattern ≡ ok tt
    → (matched : Bool) × (match_routing_pattern (normalize_pattern pattern) channel ≡ ok matched)
validate_routing_pattern-match pattern channel h =
    defined (match_routing_pattern (normalize_pattern pattern) channel) refl
  where
    few : doubles (split dot (normalize_pattern pattern)) ≤ 1
    few = ((validate_routing_pattern-ok pattern).0 h).2

    defined :
        (r : Result RoutingError Bool)
        → match_routing_pattern (normalize_pattern pattern) channel ≡ r
        → (matched : Bool) × (match_routing_pattern (normalize_pattern pattern) channel
            ≡ ok matched)
    defined (ok matched) e = (matched, e)
    defined (err multiple_double_wildcard) e =
        absurd (omega (arith, few, ((match_error_iff (normalize_pattern pattern) channel).0 e).1))
