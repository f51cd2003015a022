-- ===== src/Webhooks/Drain.antt =====
-- The loop of a delivery worker comes to an end: what is left of the retries bounds its deliveries.
use sukko.Common.{
  Bool, true, false, ℕ, zero, suc, ◌+◌, ◌-◌, ◌≤◌, ◌≡◌, refl, ap, inl, inr, Option, none, some, List,
  [], ◌∷◌, ◌++◌, arith, ltb, leb, nat_eq, list_eq, Bool-cases, ◌⊎◌, length, take, drop, drop_nil,
}
use sukko.Common.Text.{Text}
use sukko.Webhooks.{webhook_status_suspended, get_by_id}
use sukko.Common.Queue.{try_send-cases}
use sukko.Webhooks.Overflow.{IsAlone, arrive_alone}
use sukko.Webhooks.Runner.{
  DeliveryTask, StatusLabel, label_skipped, label_decrypt_failed, label_ssrf_blocked, label_success,
  label_failure, label_timeout, label_dropped, RunnerConfig, Runner, Env, send_status_update,
  record_delivery, deliver, task_at, drop_idx_of, record_dropped, drop_oldest, degrade,
  first_attempt, next_attempt, enqueue_retry, schedule_retry, recover, is_degraded, conclude,
  do_deliver, arrive, refill, record_overflow, take_retry, take_event, take_any, Turn,
  deliver_taken, worker_turn, delivery_worker,
}

-- The deliveries that a task can still have.
abbrev pub budget : DeliveryTask → ℕ
budget t = suc (t.max_retries - t.attempt)

abbrev pub workload : List DeliveryTask → ℕ
workload [] = 0
workload (t ∷ tasks) = budget t + workload tasks

abbrev pub remaining : Runner → ℕ
remaining r = workload r.retry_queue + workload r.intake

List-cases :
    (xs : List DeliveryTask)
    → (xs ≡ []) ⊎ ((x : DeliveryTask) × (ys : List DeliveryTask) × (xs ≡ x ∷ ys))
List-cases [] = inl refl
List-cases (x ∷ xs) = inr (x, xs, refl)

workload-append : (xs ys : List DeliveryTask) → workload (xs ++ ys) ≡ workload xs + workload ys
workload-append [] ys = omega arith
workload-append (x ∷ xs) ys = omega (arith, workload-append xs ys)

workload-take-drop :
    (n : ℕ) (tasks : List DeliveryTask)
    → workload (take n tasks) + workload (drop (n + 1) tasks) ≤ workload tasks
workload-take-drop zero [] = omega arith
workload-take-drop zero (t ∷ tasks) = omega arith
workload-take-drop (suc n) [] = omega (arith, ap workload (drop_nil {A = DeliveryTask} (suc n + 1)))
workload-take-drop (suc n) (t ∷ tasks) =
    let e : suc n + 1 ≡ suc (n + 1) = omega arith in
    rw e (omega (arith, workload-take-drop n tasks))

-- Steps that leave the two queues.
abbrev SameQueues : Runner → Runner → Type 0
SameQueues r r' = (r'.retry_queue ≡ r.retry_queue) × (r'.intake ≡ r.intake)

record_dropped-SameQueues :
    (dropped : Option DeliveryTask) (r : Runner) → SameQueues r (record_dropped dropped r)
unfolding record_dropped record_delivery
record_dropped-SameQueues none r = (refl, refl)
record_dropped-SameQueues (some t) r = ground arith

refill-workload :
    (size : ℕ) (others : ℕ → List DeliveryTask) (tasks queue : List DeliveryTask)
    → ((n : ℕ) → others n ≡ [])
    → workload (refill size others tasks queue).0 ≤ workload queue + workload tasks
unfolding refill
refill-workload size others [] queue alone = omega arith
refill-workload size others (t ∷ tasks) queue alone =
    let q = arrive size (others (length tasks)) queue in
    let same : workload q ≡ workload queue =
      ap workload (arrive_alone size (others (length tasks)) queue (alone (length tasks))) in
    elim (try_send-cases size t q) [
      | inl full ↦ ground (arith, full, same, refill-workload size others tasks q alone)
      | inr sent ↦ ground (
        arith,
        sent,
        same,
        refill-workload size others tasks (q ++ t ∷ []) alone,
        workload-append q (t ∷ []),
      )
    ]

record_overflow-SameQueues :
    (drops : List DeliveryTask) (r : Runner) → SameQueues r (record_overflow drops r)
unfolding record_overflow record_delivery
record_overflow-SameQueues [] r = (refl, refl)
record_overflow-SameQueues (t ∷ drops) r =
    record_overflow-SameQueues drops (record_delivery t label_dropped r)

drop_oldest-remaining :
    (config : RunnerConfig) (env : Env) (incoming : DeliveryTask) (r : Runner)
    → IsAlone env
    → remaining (drop_oldest config env incoming r) ≤ remaining r + budget incoming
unfolding drop_oldest
drop_oldest-remaining config env incoming r alone =
    let q = r.retry_queue in
    let idx = drop_idx_of q in
    let left = take idx q in
    let right = drop (idx + 1) q in
    let tasks = left ++ right ++ incoming ∷ [] in
    let filled = refill config.retry_queue_size env.others tasks [] in
    let r1 = record r { retry_queue = filled.0 } in
    let r2 = record_overflow filled.1 r1 in
    let (a, b) = record_overflow-SameQueues filled.1 r1 in
    let (c, d) = record_dropped-SameQueues (task_at idx q) r2 in
    omega (
      arith,
      ap workload a,
      ap workload b,
      ap workload c,
      ap workload d,
      refill-workload config.retry_queue_size env.others tasks [] alone,
      workload-append (left ++ right) (incoming ∷ []),
      workload-append left right,
      workload-take-drop idx q,
    )

enqueue_retry-remaining :
    (config : RunnerConfig) (env : Env) (next : DeliveryTask) (r : Runner)
    → IsAlone env
    → remaining (enqueue_retry config env next r) ≤ remaining r + budget next
unfolding enqueue_retry
enqueue_retry-remaining config env next r alone =
    elim (Bool-cases (ltb (length r.retry_queue) config.retry_queue_size)) [
      | inl fits ↦
          rw (enqueue_retry, fits) (omega (arith, workload-append r.retry_queue (next ∷ [])))
      | inr full ↦ rw (enqueue_retry, full) (drop_oldest-remaining config env next r alone)
    ]

degrade-SameQueues :
    (config : RunnerConfig) (env : Env) (task : DeliveryTask) (r : Runner)
    → SameQueues r (degrade config env task r)
unfolding degrade send_status_update
degrade-SameQueues config env task r = (refl, refl)

schedule_retry-remaining :
    (config : RunnerConfig) (env : Env) (task : DeliveryTask) (r : Runner)
    → IsAlone env
    → suc (remaining (schedule_retry config env task r)) ≤ remaining r + budget task
unfolding schedule_retry
schedule_retry-remaining config env task r alone =
    let t = first_attempt task in
    let (a, b) = degrade-SameQueues config env t r in
    elim (Bool-cases (leb t.max_retries t.attempt)) [
      | inl used ↦ ground (arith, used, ap workload a, ap workload b)
      | inr left ↦
          let next = next_attempt config env t in
          let bound = enqueue_retry-remaining config env next r alone in ground (arith, left, bound)
    ]

send_status_update-SameQueues :
    (config : RunnerConfig) (task : DeliveryTask) (status : Text) (r : Runner)
    → SameQueues r (send_status_update config task status r)
unfolding send_status_update
send_status_update-SameQueues config task status r = (refl, refl)

recover-SameQueues :
    (config : RunnerConfig) (env : Env) (task : DeliveryTask) (r : Runner)
    → SameQueues r (recover config env task r)
unfolding recover send_status_update
recover-SameQueues config env task r =
    elim (Bool-cases (is_degraded (get_by_id task.tenant_id task.webhook_id env.cache))) [
      | inl degraded ↦ rw (recover, degraded) (refl, refl)
      | inr other ↦ rw (recover, other) (refl, refl)
    ]

conclude-remaining :
    (config : RunnerConfig) (env : Env) (task : DeliveryTask) (label : StatusLabel) (r : Runner)
    → IsAlone env
    → suc (remaining (conclude config env task label r)) ≤ remaining r + budget task
unfolding conclude record_delivery
conclude-remaining config env task label_skipped r alone = omega arith
conclude-remaining config env task label_decrypt_failed r alone =
    let (a, b) = send_status_update-SameQueues config task webhook_status_suspended r in
    omega (arith, ap workload a, ap workload b)
conclude-remaining config env task label_success r alone =
    let (a, b) = recover-SameQueues config env task (record_delivery task label_success r) in
    omega (arith, ap workload a, ap workload b)
conclude-remaining config env task label_ssrf_blocked r alone =
    schedule_retry-remaining config env task (record_delivery task label_ssrf_blocked r) alone
conclude-remaining config env task label_failure r alone =
    schedule_retry-remaining config env task (record_delivery task label_failure r) alone
conclude-remaining config env task label_timeout r alone =
    schedule_retry-remaining config env task (record_delivery task label_timeout r) alone
conclude-remaining config env task label_dropped r alone =
    schedule_retry-remaining config env task (record_delivery task label_dropped r) alone

-- A delivery uses up one of the deliveries that are left.
do_deliver-remaining :
    (config : RunnerConfig) (env : Env) (task : DeliveryTask) (r : Runner)
    → IsAlone env
    → suc (remaining (do_deliver config env task r)) ≤ remaining r + budget task
unfolding do_deliver
do_deliver-remaining config env task r alone =
    conclude-remaining config env task (deliver env task) r alone

-- What a receive does: it takes a task off one of the queues.
abbrev Takes : Runner → DeliveryTask → Runner → Type 0
Takes r task r1 = remaining r ≡ remaining r1 + budget task

take_retry-cases :
    (r : Runner)
    → ((take_retry r ≡ none) × (r.retry_queue ≡ []))
      ⊎ ((task : DeliveryTask) × (r1 : Runner) × (take_retry r ≡ some (task, r1)) × Takes r task r1)
unfolding take_retry
take_retry-cases r = elim (List-cases r.retry_queue) [
  | inl empty ↦ inl (ground (arith, empty), empty)
  | inr (t, queue, e) ↦
      inr (t, record r { retry_queue = queue }, ground (arith, e), omega (arith, ap workload e))
]

take_event-cases :
    (r : Runner)
    → ((take_event r ≡ none) × (r.intake ≡ []))
      ⊎ ((task : DeliveryTask) × (r1 : Runner) × (take_event r ≡ some (task, r1)) × Takes r task r1)
unfolding take_event
take_event-cases r = elim (List-cases r.intake) [
  | inl empty ↦ inl (ground (arith, empty), empty)
  | inr (t, queue, e) ↦
      inr (t, record r { intake = queue }, ground (arith, e), omega (arith, ap workload e))
]

-- The select over both waits only where both are empty.
take_any-cases :
    (event_first : Bool) (r : Runner)
    → ((take_any event_first r ≡ none) × (r.retry_queue ≡ []) × (r.intake ≡ []))
      ⊎ ((task : DeliveryTask) × (r1 : Runner) × (take_any event_first r ≡ some (task, r1))
          × Takes r task r1)
unfolding take_any
take_any-cases true r = elim (take_event-cases r) [
  | inr (task, r1, e, takes) ↦ inr (task, r1, rw e refl, takes)
  | inl (e, idle) ↦ elim (take_retry-cases r) [
    | inr (task, r1, e', takes) ↦ inr (task, r1, rw (e, e') refl, takes)
    | inl (e', empty) ↦ inl (rw (e, e') refl, empty, idle)
  ]
]
take_any-cases false r = elim (take_retry-cases r) [
  | inr (task, r1, e, takes) ↦ inr (task, r1, rw e refl, takes)
  | inl (e, empty) ↦ elim (take_event-cases r) [
    | inr (task, r1, e', takes) ↦ inr (task, r1, rw (e, e') refl, takes)
    | inl (e', idle) ↦ inl (rw (e, e') refl, empty, idle)
  ]
]

-- No other worker sends while this one refills the queue, in either delivery of a turn.
abbrev pub TurnAlone : Turn → Type 0
TurnAlone turn = IsAlone turn.first_env × IsAlone turn.second_env

first_delivery :
    (config : RunnerConfig) (turn : Turn) (r : Runner)
    → TurnAlone turn
    → remaining (deliver_taken config turn.first_env (take_retry r) r) ≤ remaining r
first_delivery config turn r alone = elim (take_retry-cases r) [
  | inl (e, empty) ↦ rw e (omega arith)
  | inr (task, r1, e, takes) ↦
      rw e (omega (arith, takes, do_deliver-remaining config turn.first_env task r1 alone.0))
]

-- A turn uses up at least one delivery, or leaves both queues empty.
worker_turn-uses :
    (config : RunnerConfig) (turn : Turn) (r : Runner)
    → TurnAlone turn
    → (suc (remaining (worker_turn config turn r)) ≤ remaining r)
      ⊎ (remaining (worker_turn config turn r) ≡ 0)
unfolding worker_turn
worker_turn-uses config turn r alone =
    let r1 = deliver_taken config turn.first_env (take_retry r) r in
    let first = first_delivery config turn r alone in
    elim (take_any-cases turn.event_first r1) [
      | inl (e, empty, idle) ↦
          inr (rw (worker_turn, e) (omega (arith, ap workload empty, ap workload idle)))
      | inr (task, r2, e, takes) ↦ inl (
          rw (worker_turn, e)
            (omega
              (arith, first, takes, do_deliver-remaining config turn.second_env task r2 alone.1)))
    ]

remaining_none : (r : Runner) → remaining r ≤ 0 → (r.retry_queue ≡ []) × (r.intake ≡ [])
remaining_none r h = (
  elim (List-cases r.retry_queue) [
    | inl empty ↦ empty
    | inr (t, queue, e) ↦ absurd (omega (arith, h, ap workload e))
  ],
  elim (List-cases r.intake) [
    | inl empty ↦ empty
    | inr (t, queue, e) ↦ absurd (omega (arith, h, ap workload e))
  ],
)

abbrev pub AllAlone : List Turn → Type 0
AllAlone [] = Unit {0}
AllAlone (turn ∷ turns) = TurnAlone turn × AllAlone turns

-- A worker that gets as many turns of its loop as the queued tasks have deliveries left empties the
-- retry queue and the intake, if no event comes in and no other worker runs: whichever channel its
-- second select picks, whatever the deliveries end with and however the cache changes between them.
pub delivery_worker-drains :
    (config : RunnerConfig) (turns : List Turn) (r : Runner)
    → AllAlone turns
    → remaining r ≤ length turns
    → let r' = delivery_worker config turns r in (r'.retry_queue ≡ []) × (r'.intake ≡ [])
unfolding delivery_worker
delivery_worker-drains config [] r alone h = remaining_none r h
delivery_worker-drains config (turn ∷ turns) r (alone, later) h =
    delivery_worker-drains config turns (worker_turn config turn r) later
      (elim (worker_turn-uses config turn r alone) [
        | inl used ↦ omega (arith, used, h)
        | inr idle ↦ omega (arith, idle)
      ])
