-- ===== src/Topics/Sets.antt =====
-- The topics that are consumed and the topics that are only created: what is in each, and that
-- they never meet.
use sukko.Common.{
  ◌≡◌, refl, sym, ap, subst, ◌∙◌, ◌≢◌, inl, inr, Bool, true, false, not, ◌&&◌, ◌||◌, List, [], ◌∷◌,
  ◌++◌, ok, arith, ◌==◌, nat_eq, list_eq, eq_iff, contains, contains-append, seen_first,
  contains_nil, Fresh-iff, Distinct-append, Distinct, Fresh, dedup_from, contains-dedup_from,
  dedup_from-Distinct, All, All-Elem, contains_iff, or_split, keep,
}
use sukko.Common.Int.{ℤ}
use sukko.Common.Text.{Text}
use sukko.Routing.{default_topic_suffix}
use sukko.Topics.{
  TopicRoutingRule, deliveries, consume_from, consume_topic_suffixes, create_from, create_rules,
  create_only_topic_suffixes, validate_routing_rules,
}
use sukko.Topics.Rule.{IsEgress}
use sukko.Topics.Validation.{AvoidAll, IsRule, validate_routing_rules_iff}

abbrev is_some_text : Text → Bool
is_some_text t = not (t == [])

abbrev pub egress : List TopicRoutingRule → List Text
egress [] = []
egress (rule ∷ rules) = rule.egress_topics ++ egress rules

consume_from-dedup :
    (seen : List Text) (rules : List TopicRoutingRule)
    → consume_from seen rules ≡ dedup_from seen (keep is_some_text (deliveries rules))
unfolding consume_from dedup_from deliveries
consume_from-dedup seen [] = refl
consume_from-dedup seen (rule ∷ rules) =
    ground
      (arith, consume_from-dedup seen rules, consume_from-dedup (rule.ingress_topic ∷ seen) rules)

contains-keep :
    (xs : List Text) (a : Text)
    → contains (keep is_some_text xs) a ≡ (contains xs a && is_some_text a)
unfolding contains
contains-keep [] a = refl
contains-keep (x ∷ xs) a = ground (arith, contains-keep xs a, eq_iff x a)

-- A topic is consumed exactly when it is the default topic or a rule's ingress topic, the empty
-- name apart.
pub consume_members :
    (rules : List TopicRoutingRule) (topic : Text)
    → contains (consume_topic_suffixes rules) topic
      ≡ (default_topic_suffix == topic || (contains (deliveries rules) topic && not (topic == [])))
unfolding consume_topic_suffixes contains
consume_members rules topic = ground (
  arith,
  ap (λ xs. contains xs topic) (consume_from-dedup (default_topic_suffix ∷ []) rules),
  contains-dedup_from (default_topic_suffix ∷ []) (keep is_some_text (deliveries rules)) topic,
  contains-keep (deliveries rules) topic,
)

create_from-contains :
    (consumed seen xs : List Text) (a : Text)
    → contains (create_from consumed seen xs).0 a
      ≡ (contains xs a && not (a == []) && not (contains consumed a) && not (contains seen a))
unfolding create_from contains
create_from-contains consumed seen [] a = refl
create_from-contains consumed seen (x ∷ xs) a = ground (
  arith,
  eq_iff x a,
  create_from-contains consumed seen xs a,
  create_from-contains consumed (x ∷ seen) xs a,
)

create_from-seen :
    (consumed seen xs : List Text) (a : Text)
    → contains (create_from consumed seen xs).1 a
      ≡ (contains seen a || contains (create_from consumed seen xs).0 a)
unfolding create_from contains
create_from-seen consumed seen [] a = ground arith
create_from-seen consumed seen (x ∷ xs) a =
    ground (arith, create_from-seen consumed seen xs a, create_from-seen consumed (x ∷ seen) xs a)

create_from-Distinct : (consumed seen xs : List Text) → Distinct (create_from consumed seen xs).0
unfolding create_from
create_from-Distinct consumed seen [] = tt
create_from-Distinct consumed seen (x ∷ xs) = ground (
  arith,
  create_from-Distinct consumed seen xs,
  create_from-Distinct consumed (x ∷ seen) xs,
  seen_first x seen,
  create_from-contains consumed (x ∷ seen) xs x,
)

create_rules-contains :
    (consumed seen : List Text) (rules : List TopicRoutingRule) (a : Text)
    → contains (create_rules consumed seen rules) a ≡ (
        contains (egress rules) a
        && not (a == [])
        && not (contains consumed a)
        && not (contains seen a))
unfolding create_rules contains
create_rules-contains consumed seen [] a = refl
create_rules-contains consumed seen (rule ∷ rules) a =
    let es = rule.egress_topics in
    let made = (create_from consumed seen es).0 in
    let seen' = (create_from consumed seen es).1 in
    ground (
      arith,
      contains-append made (create_rules consumed seen' rules) a,
      contains-append es (egress rules) a,
      create_rules-contains consumed seen' rules a,
      create_from-contains consumed seen es a,
      create_from-seen consumed seen es a,
    )

create_rules-Distinct :
    (consumed seen : List Text) (rules : List TopicRoutingRule)
    → Distinct (create_rules consumed seen rules)
unfolding create_rules
create_rules-Distinct consumed seen [] = tt
create_rules-Distinct consumed seen (rule ∷ rules) =
    let es = rule.egress_topics in
    let made = (create_from consumed seen es).0 in
    let seen' = (create_from consumed seen es).1 in
    Distinct-append made (create_rules consumed seen' rules) (create_from-Distinct consumed seen es)
      (create_rules-Distinct consumed seen' rules)
      ((Fresh-iff (create_rules consumed seen' rules) made).1 λ a e.
        ground (
          arith,
          create_rules-contains consumed seen' rules a,
          create_from-seen consumed seen es a,
        ))

-- The create-only topics are the egress topics, the empty name and the consumed ones apart.
pub create_only_members :
    (rules : List TopicRoutingRule) (topic : Text)
    → contains (create_only_topic_suffixes rules) topic ≡ (
        contains (egress rules) topic
        && not (topic == [])
        && not (contains (consume_topic_suffixes rules) topic))
unfolding create_only_topic_suffixes
create_only_members rules topic =
    ground (
      arith,
      create_rules-contains (consume_topic_suffixes rules) [] rules topic,
      contains_nil topic,
    )

consume-Distinct : (rules : List TopicRoutingRule) → Distinct (consume_topic_suffixes rules)
unfolding consume_topic_suffixes
consume-Distinct rules =
    let ingress = keep is_some_text (deliveries rules) in
    let same = consume_from-dedup (default_topic_suffix ∷ []) rules in
    (
      ground (
        arith,
        ap (λ xs. contains xs default_topic_suffix) same,
        contains-dedup_from (default_topic_suffix ∷ []) ingress default_topic_suffix,
        seen_first default_topic_suffix [],
      ),
      subst Distinct (sym same) (dedup_from-Distinct (default_topic_suffix ∷ []) ingress),
    )

create_only-Distinct : (rules : List TopicRoutingRule) → Distinct (create_only_topic_suffixes rules)
unfolding create_only_topic_suffixes
create_only-Distinct rules = create_rules-Distinct (consume_topic_suffixes rules) [] rules

avoids :
    (topics : List Text) (rules : List TopicRoutingRule) (topic : Text)
    → AvoidAll topics rules
    → contains (egress rules) topic ≡ true
    → contains topics topic ≡ false
unfolding contains
avoids topics [] topic h e = absurd (ground arith)
avoids topics (rule ∷ rules) topic h e = ground (
  arith,
  contains-append rule.egress_topics (egress rules) topic,
  (Fresh-iff topics rule.egress_topics).0 h.0 topic,
  avoids topics rules topic h.1,
)

IsEgress-contains :
    (ingress : Text) (xs : List Text) (topic : Text)
    → All (IsEgress ingress) xs
    → contains xs topic ≡ true
    → (topic ≢ []) × (topic ≢ default_topic_suffix)
IsEgress-contains ingress xs topic h e =
    let i = All-Elem (IsEgress ingress) topic xs h ((contains_iff xs topic).0 e) in (i.0, i.1)

egress_named :
    (max_topics : ℤ) (rules : List TopicRoutingRule) (topic : Text)
    → All (IsRule max_topics) rules
    → contains (egress rules) topic ≡ true
    → (topic ≢ []) × (topic ≢ default_topic_suffix)
unfolding contains
egress_named max_topics [] topic h e = absurd (ground arith)
egress_named max_topics (rule ∷ rules) topic h e =
    elim (or_split _ _ (sym (contains-append rule.egress_topics (egress rules) topic) ∙ e)) [
      | inl here ↦ IsEgress-contains rule.ingress_topic rule.egress_topics topic h.0.1.3 here
      | inr later ↦ egress_named max_topics rules topic h.1 later
    ]

-- Whatever the rules, validated or not: neither the topics to consume nor those that are only
-- created name a topic twice, and no topic is in both.
pub topic_sets_disjoint :
    (rules : List TopicRoutingRule)
    → Distinct (consume_topic_suffixes rules)
      × Distinct (create_only_topic_suffixes rules)
      × Fresh (consume_topic_suffixes rules) (create_only_topic_suffixes rules)
topic_sets_disjoint rules = (
  consume-Distinct rules,
  create_only-Distinct rules,
  (Fresh-iff (consume_topic_suffixes rules) (create_only_topic_suffixes rules)).1
      λ a e. ground (arith, create_only_members rules a),
)

-- In a rule set that passes the validation an egress topic is never consumed, and it is always among
-- the topics to create.
pub validated_egress :
    (rules : List TopicRoutingRule) (max_rules max_topics : ℤ) (topic : Text)
    → validate_routing_rules rules max_rules max_topics ≡ ok tt
    → contains (egress rules) topic ≡ true
    → (contains (consume_topic_suffixes rules) topic ≡ false)
      × (contains (create_only_topic_suffixes rules) topic ≡ true)
validated_egress rules max_rules max_topics topic valid e =
    let set = (validate_routing_rules_iff rules max_rules max_topics).0 valid in
    let apart = avoids (deliveries rules) rules topic set.5 e in
    let named = egress_named max_topics rules topic set.2 e in
    ground (
      arith,
      create_only_members rules topic,
      consume_members rules topic,
      eq_iff topic [],
      eq_iff default_topic_suffix topic,
    )
