-- ===== src/Kafka/Publish.antt =====
-- Publish: what a call writes, copies and counts, on every outcome.
use sukko.Common.{
  ◌+◌, ◌≡◌, refl, sym, ap, subst, ◌⊎◌, inl, inr, Bool, not, ◌&&◌, length, some, List, [], ◌∷◌, ◌++◌,
  map, Result, ok, err, arith, if◌then◌else◌, nat_eq, list_eq, ltb, Bool-cases, Option-cases,
  Result-cases,
}
use sukko.Common.Int.{ℤ}
use sukko.Common.Text.{Text}
use sukko.Kafka.{
  Broker, Producer, ProducePlan, PublishError, producer_closed, invalid_channel, produce_failed,
  ProducerAction, stored_record, submitted_copy, ProduceResult, acked, not_acked, submit_copies,
  message_id, extract_tenant, resolve_targets, do_produce, publish_plan, publish,
}

-- A plan that was acknowledged with the given identity.
pub record Acknowledged (broker : Broker) (plan : ProducePlan) (p p' : Producer) (mid : Text)
    : Type 0 where
  pub partition : ℤ
  pub offset : ℤ
  pub reported : broker.produce_sync plan.ingress_topic ≡ acked partition offset
  pub named : mid ≡ message_id plan.ingress_topic partition offset
  pub did :
      p'.actions
      ≡ p.actions ++ (stored_record plan.ingress_topic ∷ map submitted_copy plan.egress_topics)
  pub counted : p'.messages_published ≡ p.messages_published + 1
  pub not_failed : p'.messages_failed ≡ p.messages_failed

-- A call that has done nothing outside.
abbrev pub Silent : Producer → Producer → Type 0
Silent p p' =
    (p'.actions ≡ p.actions)
    × (p'.breaker_calls ≡ p.breaker_calls)
    × (p'.messages_published ≡ p.messages_published)

-- A plan whose write was not acknowledged, and the record that the broker may have stored.
pub record Unacknowledged (broker : Broker) (plan : ProducePlan) (p p' : Producer)
    (e : PublishError) : Type 0 where
  pub was_stored : Bool
  pub reported : broker.produce_sync plan.ingress_topic ≡ not_acked was_stored
  pub failed : e ≡ produce_failed
  pub did :
      p'.actions ≡ p.actions ++ (if was_stored then stored_record plan.ingress_topic ∷ [] else [])
  pub entered : p'.breaker_calls ≡ p.breaker_calls + 1
  pub counted : p'.messages_failed ≡ p.messages_failed + 1
  pub not_published : p'.messages_published ≡ p.messages_published

-- What holds after a call, by its result.
abbrev PlanOutcome : Broker → ProducePlan → Producer → Producer → Result PublishError Text → Type 0
PlanOutcome broker plan p p' (ok mid) = Acknowledged broker plan p p' mid
PlanOutcome broker plan p p' (err e) = Silent p p' ⊎ Unacknowledged broker plan p p' e

-- The plan of a channel, from the rules of the tenant that it names.
abbrev pub PlanFor : Producer → Text → ProducePlan → Type 0
PlanFor p channel plan =
    (tenant : Text) × (extract_tenant channel ≡ some tenant)
    × (resolve_targets p.topic_namespace p.rules_provider channel tenant ≡ ok plan)

abbrev pub Outcome : Broker → Producer → Text → Producer → Result PublishError Text → Type 0
Outcome broker p channel p' (ok mid) =
    (plan : ProducePlan) × PlanFor p channel plan × Acknowledged broker plan p p' mid
Outcome broker p channel p' (err e) =
    Silent p p'
    ⊎ ((plan : ProducePlan) × PlanFor p channel plan × Unacknowledged broker plan p p' e)

submit_copies-map : (topics : List Text) → submit_copies topics ≡ map submitted_copy topics
unfolding submit_copies
submit_copies-map [] = refl
submit_copies-map (topic ∷ topics) =
    ap (λ rest. submitted_copy topic ∷ rest) (submit_copies-map topics)

ProduceResult-cases :
    (r : ProduceResult)
    → ((partition offset : ℤ) × (r ≡ acked partition offset))
      ⊎ ((was_stored : Bool) × (r ≡ not_acked was_stored))
ProduceResult-cases (acked partition offset) = inl (partition, offset, refl)
ProduceResult-cases (not_acked was_stored) = inr (was_stored, refl)

append_nil : (xs : List ProducerAction) → xs ++ [] ≡ xs
append_nil [] = refl
append_nil (x ∷ xs) = ap (λ rest. x ∷ rest) (append_nil xs)

-- The same of a call and its result together.
abbrev PlanDone : Broker → ProducePlan → Producer → Producer × Result PublishError Text → Type 0
PlanDone broker plan p done = PlanOutcome broker plan p done.0 done.1

acked_done :
    (broker : Broker) (plan : ProducePlan) (p : Producer) (partition offset : ℤ)
    → broker.produce_sync plan.ingress_topic ≡ acked partition offset
    → PlanDone broker plan p
        (do_produce broker plan (record p { breaker_calls = p.breaker_calls + 1 }))
unfolding do_produce
acked_done broker plan p partition offset reported =
    let entered = record p { breaker_calls = p.breaker_calls + 1 } in
    let p' = record entered {
      messages_published = p.messages_published + 1;
      actions = p.actions ++ (stored_record plan.ingress_topic ∷ submit_copies plan.egress_topics);
    } in
    let mid = message_id plan.ingress_topic partition offset in
    let runs : do_produce broker plan entered ≡ (p', ok mid) = rw (reported, do_produce) refl in
    subst (PlanDone broker plan p) (sym runs) (record {
      partition = partition;
      offset = offset;
      reported = reported;
      named = refl;
      did =
          ap (λ copies. p.actions ++ (stored_record plan.ingress_topic ∷ copies))
            (submit_copies-map plan.egress_topics);
      counted = refl;
      not_failed = refl;
    })

not_acked_done :
    (broker : Broker) (plan : ProducePlan) (p : Producer) (was_stored : Bool)
    → broker.produce_sync plan.ingress_topic ≡ not_acked was_stored
    → PlanDone broker plan p
        (do_produce broker plan (record p { breaker_calls = p.breaker_calls + 1 }))
unfolding do_produce
not_acked_done broker plan p was_stored reported =
    let entered = record p { breaker_calls = p.breaker_calls + 1 } in
    let p' = record entered {
      messages_failed = p.messages_failed + 1;
      actions =
          if was_stored then p.actions ++ stored_record plan.ingress_topic ∷ [] else p.actions;
    } in
    let runs : do_produce broker plan entered ≡ (p', err produce_failed) =
      rw (reported, do_produce) refl in
    subst (PlanDone broker plan p) (sym runs) (
      inr (record {
        was_stored = was_stored;
        reported = reported;
        failed = refl;
        did = ground (arith, append_nil p.actions);
        entered = refl;
        counted = refl;
        not_published = refl;
      }))

publish_plan_done :
    (broker : Broker) (plan : ProducePlan) (p : Producer)
    → PlanDone broker plan p (publish_plan broker plan p)
unfolding publish_plan
publish_plan_done broker plan p =
    let entered = record p { breaker_calls = p.breaker_calls + 1 } in
    elim (Bool-cases (ltb 0 (length plan.egress_topics) && not p.has_fanout)) [
      | inl no_pool ↦ rw no_pool (inl (refl, refl, refl))
      | inr pool ↦ elim (Bool-cases broker.admits) [
        | inr shut ↦ rw (pool, shut) (inl (refl, refl, refl))
        | inl admits ↦
            let runs : publish_plan broker plan p ≡ do_produce broker plan entered =
              rw (pool, admits) refl in
            subst (PlanDone broker plan p) (sym runs)
              (elim (ProduceResult-cases (broker.produce_sync plan.ingress_topic)) [
                | inl (partition, offset, reported) ↦
                    acked_done broker plan p partition offset reported
                | inr (was_stored, reported) ↦ not_acked_done broker plan p was_stored reported
              ])
      ]
    ]

abbrev Done : Broker → Producer → Text → Producer × Result PublishError Text → Type 0
Done broker p channel done = Outcome broker p channel done.0 done.1

-- What a plan comes to is what the call comes to.
planned-Done :
    (broker : Broker) (p : Producer) (channel : Text) (plan : ProducePlan)
    (done : Producer × Result PublishError Text)
    → PlanFor p channel plan
    → PlanDone broker plan p done
    → Done broker p channel done
planned-Done broker p channel plan (p', ok mid) planned holds = (plan, planned, holds)
planned-Done broker p channel plan (p', err e) planned (inl silent) = inl silent
planned-Done broker p channel plan (p', err e) planned (inr failed) = inr (plan, planned, failed)

silent-Done :
    (broker : Broker) (p : Producer) (channel : Text) (e : PublishError)
    (done : Producer × Result PublishError Text)
    → done ≡ (p, err e)
    → Done broker p channel done
silent-Done broker p channel e done same =
    subst (Done broker p channel) (sym same) (inl (refl, refl, refl))

-- A call of Publish that succeeds has a plan for the channel: the broker has stored and acknowledged
-- the ingress record, behind it each egress copy of the plan was submitted, in order, and nothing
-- else; the identity is that of the ingress record, and one more message is counted as published. A
-- call that fails counts none and submits no copy: either it has written nothing and not entered the
-- circuit breaker, or the write of its ingress record was not acknowledged, it is counted as failed,
-- and the broker may have stored that record.
pub publish-Outcome :
    (broker : Broker) (p : Producer) (channel : Text)
    → let (p', r) = publish broker p channel in Outcome broker p channel p' r
unfolding publish
publish-Outcome broker p channel = elim (Bool-cases p.closed) [
  | inl closed ↦
      silent-Done broker p channel producer_closed (publish broker p channel)
        (ground (arith, closed))
  | inr open_ ↦ elim (Option-cases (extract_tenant channel)) [
    | inl missing ↦
        silent-Done broker p channel invalid_channel (publish broker p channel)
          (ground (arith, open_, missing))
    | inr (tenant, owned) ↦
        elim (Result-cases (resolve_targets p.topic_namespace p.rules_provider channel tenant)) [
          | inl (e, rejected) ↦
              silent-Done broker p channel e (publish broker p channel)
                (ground (arith, open_, owned, rejected))
          | inr (plan, planned) ↦
              let runs : publish broker p channel ≡ publish_plan broker plan p =
                ground (arith, open_, owned, planned) in
              subst (Done broker p channel) (sym runs) (
                planned-Done broker p channel plan (publish_plan broker plan p)
                  (tenant, owned, planned) (publish_plan_done broker plan p))
        ]
  ]
]
