-- ===== src/Kafka/Targets.antt =====
-- resolveTargets: the first rule that routes the channel decides, and what its plan may name.
use sukko.Common.{
  ◌≡◌, refl, sym, ap, ◌≢◌, ◌↔◌, inl, inr, Bool, true, false, ◌||◌, List, [], ◌∷◌, ◌++◌, ok, err,
  arith, ◌==◌, nat_eq, list_eq, eq_iff, eq_refl, contains, seen_first, Distinct, All, Bool-cases,
}
use sukko.Common.Text.{Text}
use sukko.Routing.{dead_letter_topic_suffix, default_topic_suffix}
use sukko.Topics.{TopicRoutingRule}
use sukko.Kafka.{
  no_matching_route, ProducePlan, build_topic_name, routes, egress_targets, plan_of, resolve_rules,
}

-- The rule that decides for a channel.
pub record FirstRule (channel : Text) (rules : List TopicRoutingRule) (rule : TopicRoutingRule)
    : Type 0 where
  pub before : List TopicRoutingRule
  pub after : List TopicRoutingRule
  pub whole : rules ≡ before ++ (rule ∷ after)
  pub skipped : All (λ r. routes channel r ≡ false) before
  pub taken : routes channel rule ≡ true

pub resolve_rules-first :
    (namespace tenant channel : Text) (rules : List TopicRoutingRule) (plan : ProducePlan)
    → resolve_rules namespace tenant channel rules ≡ ok plan
    → (rule : TopicRoutingRule) × FirstRule channel rules rule
      × (plan ≡ plan_of namespace tenant rule)
unfolding resolve_rules
resolve_rules-first namespace tenant channel [] plan h = absurd (ground arith)
resolve_rules-first namespace tenant channel (rule ∷ rules) plan h =
    elim (Bool-cases (routes channel rule)) [
      | inl hit ↦ (
        rule,
        record { before = []; after = rules; whole = refl; skipped = tt; taken = hit },
        ground (arith, hit),
      )
      | inr miss ↦
          let (found, first, e) =
            resolve_rules-first namespace tenant channel rules plan (ground (arith, miss)) in
          (
            found,
            record {
              before = rule ∷ first.before;
              after = first.after;
              whole = ap (◌∷◌ rule) first.whole;
              skipped = (miss, first.skipped);
              taken = first.taken;
            },
            e,
          )
    ]

-- The resolution fails for want of a route exactly when none of the rules routes the channel.
pub resolve_rules-none :
    (namespace tenant channel : Text) (rules : List TopicRoutingRule)
    → (resolve_rules namespace tenant channel rules ≡ err no_matching_route)
      ↔ All (λ r. routes channel r ≡ false) rules
unfolding resolve_rules
resolve_rules-none namespace tenant channel [] = ground arith
resolve_rules-none namespace tenant channel (rule ∷ rules) =
    ground (arith, resolve_rules-none namespace tenant channel rules)

-- A topic of `seen` is no egress target.
egress_targets-seen :
    (namespace tenant : Text) (seen suffixes : List Text) (topic : Text)
    → contains seen topic ≡ true
    → contains (egress_targets namespace tenant seen suffixes) topic ≡ false
unfolding egress_targets contains
egress_targets-seen namespace tenant seen [] topic h = refl
egress_targets-seen namespace tenant seen (suffix ∷ suffixes) topic h =
    let name = build_topic_name namespace tenant suffix in
    ground (
      arith,
      eq_iff name topic,
      egress_targets-seen namespace tenant seen suffixes topic,
      egress_targets-seen namespace tenant (name ∷ seen) suffixes topic,
    )

egress_targets-Distinct :
    (namespace tenant : Text) (seen suffixes : List Text)
    → Distinct (egress_targets namespace tenant seen suffixes)
unfolding egress_targets
egress_targets-Distinct namespace tenant seen [] = tt
egress_targets-Distinct namespace tenant seen (suffix ∷ suffixes) =
    let name = build_topic_name namespace tenant suffix in
    ground (
      arith,
      seen_first name seen,
      egress_targets-seen namespace tenant (name ∷ seen) suffixes name,
      egress_targets-Distinct namespace tenant seen suffixes,
      egress_targets-Distinct namespace tenant (name ∷ seen) suffixes,
    )

-- Each egress target is the topic of one of the rule's egress suffixes, and of none that is empty
-- or reserved.
abbrev pub IsTarget : Text → Text → List Text → Text → Type 0
IsTarget namespace tenant suffixes topic =
    (suffix : Text) × (topic ≡ build_topic_name namespace tenant suffix)
    × (contains suffixes suffix ≡ true)
    × (suffix ≢ [])
    × (suffix ≢ default_topic_suffix)
    × (suffix ≢ dead_letter_topic_suffix)

egress_targets-IsTarget :
    (namespace tenant : Text) (seen suffixes : List Text) (topic : Text)
    → contains (egress_targets namespace tenant seen suffixes) topic ≡ true
    → IsTarget namespace tenant suffixes topic
unfolding egress_targets contains
egress_targets-IsTarget namespace tenant seen [] topic h = absurd (ground arith)
egress_targets-IsTarget namespace tenant seen (suffix ∷ suffixes) topic h =
    elim (Bool-cases refused) [
      | inl skip ↦
          let (s, e, c, n, n2, n3) =
            egress_targets-IsTarget namespace tenant seen suffixes topic (ground arith) in
          (s, e, ground (arith, c), n, n2, n3)
      | inr add ↦ elim (Bool-cases (name == topic)) [
        | inl here ↦ (
          suffix,
          sym ((eq_iff name topic).0 here),
          ground (arith, eq_refl suffix),
          ground (arith, eq_iff suffix []),
          ground (arith, eq_iff suffix default_topic_suffix),
          ground (arith, eq_iff suffix dead_letter_topic_suffix),
        )
        | inr later ↦
            let (s, e, c, n, n2, n3) =
              egress_targets-IsTarget namespace tenant (name ∷ seen) suffixes topic
                (ground arith) in
            (s, e, ground (arith, c), n, n2, n3)
      ]
    ]
  where
    name : Text
    name = build_topic_name namespace tenant suffix

    refused : Bool
    refused =
        suffix == []
        || (suffix == default_topic_suffix || suffix == dead_letter_topic_suffix)
        || contains seen name

-- A plan comes from the first rule that routes the channel. Its ingress topic is that rule's; its
-- egress topics are distinct, differ from the ingress topic, and each is the topic of one of the
-- rule's egress suffixes that is neither empty nor reserved.
pub resolve_rules-plan :
    (namespace tenant channel : Text) (rules : List TopicRoutingRule) (plan : ProducePlan)
    → resolve_rules namespace tenant channel rules ≡ ok plan
    → (rule : TopicRoutingRule) × FirstRule channel rules rule
      × (plan.ingress_topic ≡ build_topic_name namespace tenant rule.ingress_topic)
      × (contains plan.egress_topics plan.ingress_topic ≡ false)
      × Distinct plan.egress_topics
      × ((topic : Text)
          → contains plan.egress_topics topic ≡ true
          → IsTarget namespace tenant rule.egress_topics topic)
unfolding plan_of
resolve_rules-plan namespace tenant channel rules plan h =
    let (rule, first, e) = resolve_rules-first namespace tenant channel rules plan h in
    let delivery = build_topic_name namespace tenant rule.ingress_topic in
    let es = rule.egress_topics in
    rw e (
      rule,
      first,
      refl,
      egress_targets-seen namespace tenant (delivery ∷ []) es delivery (seen_first delivery []),
      egress_targets-Distinct namespace tenant (delivery ∷ []) es,
      λ topic k. egress_targets-IsTarget namespace tenant (delivery ∷ []) es topic k,
    )
