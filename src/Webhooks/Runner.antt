-- ===== src/Webhooks/Runner.antt =====
-- ws/internal/webhook/worker: runner.go, and the gate of delivery.go. A step is one turn of a worker's
-- loop; what the HTTP call of a delivery ends with, the clock and the cache at that time are an `Env`,
-- with what other workers send to the retry queue while it is refilled. The channels are lists, the
-- oldest entry first, with their bounds. The shutdown, metrics and logs are left out; attempts and
-- retries are not negative.
use sukko.Common.{
  length, ℕ, zero, suc, ◌+◌, ◌-◌, Bool, false, Option, none, some, List, [], ◌∷◌, ◌++◌, ok, err,
  if◌then◌else◌, ltb, leb, ◌==◌, nat_eq, list_eq, take, drop,
}
use sukko.Common.Queue.{try_send, or_full}
use sukko.Common.Text.{Text}
use sukko.Routing.{match_routing_pattern}
use sukko.Webhooks.{
  WebhookRecord, webhook_status_enabled, webhook_status_degraded, webhook_status_suspended,
  WebhookCache, get_records_by_slug, get_by_id,
}

pub record DeliveryTask : Type 0 where
  pub webhook_id : Text
  pub tenant_id : Text
  pub payload : Text
  pub attempt : ℕ
  pub max_retries : ℕ
  pub next_at : ℕ
  pub mid : Text

pub data StatusLabel : Type 0 where
  label_skipped label_decrypt_failed label_ssrf_blocked label_success : StatusLabel
  label_failure label_timeout label_dropped : StatusLabel

-- What RecordDelivery is called with.
pub record DeliveryRecord : Type 0 where
  pub webhook_id : Text
  pub tenant_id : Text
  pub attempt : ℕ
  pub label : StatusLabel

pub record StatusUpdate : Type 0 where
  pub webhook_id : Text
  pub tenant_id : Text
  pub status : Text

pub record DegradedTimer : Type 0 where
  pub webhook_id : Text
  pub tenant_id : Text
  pub next_at : ℕ

-- The sizes of the channels and the schedule, whose first delay is `first_delay`.
pub record RunnerConfig : Type 0 where
  pub intake_size : ℕ
  pub retry_queue_size : ℕ
  pub worker_concurrency : ℕ
  pub first_delay : ℕ
  pub retry_schedule : List ℕ

pub record Runner : Type 0 where
  pub intake : List DeliveryTask
  pub retry_queue : List DeliveryTask
  pub status_updates : List StatusUpdate
  pub degraded_timers : List DegradedTimer
  pub deliveries : List DeliveryRecord

pub record Env : Type 0 where
  pub cache : WebhookCache
  pub dispatch : DeliveryTask → StatusLabel
  pub clock : ℕ
  pub others : ℕ → List DeliveryTask

unfoldable pub send_status_update : RunnerConfig → DeliveryTask → Text → Runner → Runner
send_status_update config task status r =
    let update : StatusUpdate = record {
      webhook_id = task.webhook_id;
      tenant_id = task.tenant_id;
      status = status;
    } in
    record r {
      status_updates =
          or_full (try_send config.worker_concurrency update r.status_updates) r.status_updates;
    }

unfoldable pub record_delivery : DeliveryTask → StatusLabel → Runner → Runner
record_delivery task label r = record r {
  deliveries =
      r.deliveries
      ++ record {
        webhook_id = task.webhook_id;
        tenant_id = task.tenant_id;
        attempt = task.attempt;
        label = label;
      }
        ∷ [];
}

-- Deliver: the gate of the status, then the dispatch.
unfoldable pub deliver : Env → DeliveryTask → StatusLabel
deliver env task = elim (get_by_id task.tenant_id task.webhook_id env.cache) [
  | none ↦ label_skipped
  | some rec ↦ if rec.status == webhook_status_suspended then label_skipped else env.dispatch task
]

unfoldable pub delay_at : ℕ → ℕ → List ℕ → ℕ
delay_at last idx [] = last
delay_at last zero (d ∷ schedule) = d
delay_at last (suc idx) (d ∷ schedule) = delay_at d idx schedule

-- retryDelay: the entry of the attempt, or the last one.
unfoldable pub retry_delay : RunnerConfig → ℕ → ℕ
unfolding delay_at
retry_delay config attempt = delay_at config.first_delay (attempt - 1) config.retry_schedule

-- The loop that finds the index of the task with the latest time, the first of them; `best` is the
-- time at `drop_idx`.
unfoldable pub furthest_from : ℕ → ℕ → ℕ → List DeliveryTask → ℕ
furthest_from drop_idx best i [] = drop_idx
furthest_from drop_idx best i (t ∷ tasks) =
    let later = ltb best t.next_at in
    furthest_from (if later then i else drop_idx) (if later then t.next_at else best) (i + 1) tasks

abbrev pub task_at : ℕ → List DeliveryTask → Option DeliveryTask
task_at idx [] = none
task_at zero (t ∷ tasks) = some t
task_at (suc idx) (t ∷ tasks) = task_at idx tasks

abbrev pub drop_idx_of : List DeliveryTask → ℕ
drop_idx_of [] = 0
drop_idx_of (t ∷ tasks) = furthest_from 0 t.next_at 0 (t ∷ tasks)

-- The record of a task that was dropped; a task without a webhook is the zero value.
unfoldable pub record_dropped : Option DeliveryTask → Runner → Runner
unfolding record_delivery
record_dropped none r = r
record_dropped (some dropped) r =
    if dropped.webhook_id == [] then r else record_delivery dropped label_dropped r

-- What the other workers have sent, as far as the queue has room for it.
abbrev pub arrive : ℕ → List DeliveryTask → List DeliveryTask → List DeliveryTask
arrive size sent queue = queue ++ take (size - length queue) sent

-- The loop that fills the queue again, and the tasks that find it full; `others` is what the other
-- workers send before each task, by the number of the tasks behind it.
unfoldable pub refill :
    ℕ
    → (ℕ → List DeliveryTask)
    → List DeliveryTask
    → List DeliveryTask
    → List DeliveryTask × List DeliveryTask
refill size others [] queue = (queue, [])
refill size others (t ∷ tasks) queue =
    let q = arrive size (others (length tasks)) queue in
    elim (try_send size t q) [
      | none ↦ let (filled, drops) = refill size others tasks q in (filled, t ∷ drops)
      | some sent ↦ refill size others tasks sent
    ]

unfoldable pub record_overflow : List DeliveryTask → Runner → Runner
unfolding record_delivery
record_overflow [] r = r
record_overflow (t ∷ drops) r = record_overflow drops (record_delivery t label_dropped r)

-- dropOldest.
unfoldable pub drop_oldest : RunnerConfig → Env → DeliveryTask → Runner → Runner
unfolding furthest_from refill record_overflow record_dropped
drop_oldest config env incoming r =
    let idx = drop_idx_of r.retry_queue in
    let tasks = take idx r.retry_queue ++ drop (idx + 1) r.retry_queue ++ incoming ∷ [] in
    let (queue, drops) = refill config.retry_queue_size env.others tasks [] in
    record_dropped (task_at idx r.retry_queue)
      (record_overflow drops (record r { retry_queue = queue }))

abbrev pub degraded_retry_interval : ℕ
degraded_retry_interval = 3600

-- The retries of a task are used up. A second send to a channel that is full fails again.
unfoldable pub degrade : RunnerConfig → Env → DeliveryTask → Runner → Runner
unfolding send_status_update
degrade config env task r =
    let r1 = send_status_update config task webhook_status_degraded r in
    let timer : DegradedTimer = record {
      webhook_id = task.webhook_id;
      tenant_id = task.tenant_id;
      next_at = env.clock + degraded_retry_interval;
    } in
    record r1 {
      degraded_timers =
          or_full (try_send config.retry_queue_size timer r1.degraded_timers) r1.degraded_timers;
    }

abbrev pub first_attempt : DeliveryTask → DeliveryTask
first_attempt task = record task { attempt = if leb task.attempt 0 then 1 else task.attempt }

abbrev pub next_attempt : RunnerConfig → Env → DeliveryTask → DeliveryTask
next_attempt config env task = record task {
  attempt = task.attempt + 1;
  next_at = env.clock + retry_delay config task.attempt;
}

-- Sends a retry, in place of another one where the queue is full.
unfoldable pub enqueue_retry : RunnerConfig → Env → DeliveryTask → Runner → Runner
unfolding drop_oldest
enqueue_retry config env next r = elim (try_send config.retry_queue_size next r.retry_queue) [
  | none ↦ drop_oldest config env next r
  | some queue ↦ record r { retry_queue = queue }
]

unfoldable pub schedule_retry : RunnerConfig → Env → DeliveryTask → Runner → Runner
unfolding degrade enqueue_retry retry_delay
schedule_retry config env task r =
    let t = first_attempt task in
    if leb t.max_retries t.attempt
    then degrade config env t r
    else enqueue_retry config env (next_attempt config env t) r

abbrev pub is_degraded : Option WebhookRecord → Bool
is_degraded none = false
is_degraded (some rec) = rec.status == webhook_status_degraded

-- A delivery that succeeded brings a degraded webhook back.
unfoldable pub recover : RunnerConfig → Env → DeliveryTask → Runner → Runner
unfolding send_status_update
recover config env task r =
    if is_degraded (get_by_id task.tenant_id task.webhook_id env.cache)
    then send_status_update config task webhook_status_enabled r
    else r

-- doDeliver behind the wait for the time of the task.
unfoldable pub conclude : RunnerConfig → Env → DeliveryTask → StatusLabel → Runner → Runner
unfolding send_status_update record_delivery schedule_retry recover
conclude config env task label_skipped r = r
conclude config env task label_decrypt_failed r =
    record_delivery task label_decrypt_failed
      (send_status_update config task webhook_status_suspended r)
conclude config env task label_success r =
    recover config env task (record_delivery task label_success r)
conclude config env task label r = schedule_retry config env task (record_delivery task label r)

unfoldable pub do_deliver : RunnerConfig → Env → DeliveryTask → Runner → Runner
unfolding deliver conclude
do_deliver config env task r = conclude config env task (deliver env task) r

-- A receive that does not wait, from each of the two channels.
unfoldable pub take_retry : Runner → Option (DeliveryTask × Runner)
take_retry r = elim r.retry_queue [
  | [] ↦ none
  | t ∷ queue ↦ some (t, record r { retry_queue = queue })
]

unfoldable pub take_event : Runner → Option (DeliveryTask × Runner)
take_event r = elim r.intake [ [] ↦ none | t ∷ queue ↦ some (t, record r { intake = queue }) ]

-- The select over both channels: where both have a task it takes either (`event_first`), and it waits
-- where none has one.
unfoldable pub take_any : Bool → Runner → Option (DeliveryTask × Runner)
unfolding take_retry take_event
take_any event_first r =
    if event_first
    then elim (take_event r) [ none ↦ take_retry r | some taken ↦ some taken ]
    else elim (take_retry r) [ none ↦ take_event r | some taken ↦ some taken ]

-- What a turn of the loop meets, at each of its two selects.
pub record Turn : Type 0 where
  pub first_env : Env
  pub second_env : Env
  pub event_first : Bool

abbrev pub deliver_taken : RunnerConfig → Env → Option (DeliveryTask × Runner) → Runner → Runner
deliver_taken config env none r = r
deliver_taken config env (some (task, r1)) r = do_deliver config env task r1

-- One turn of the loop: the first select takes a retry if there is one, the second one a task of
-- either channel.
unfoldable pub worker_turn : RunnerConfig → Turn → Runner → Runner
unfolding take_retry take_any do_deliver
worker_turn config turn r =
    let r1 = deliver_taken config turn.first_env (take_retry r) r in
    deliver_taken config turn.second_env (take_any turn.event_first r1) r1

unfoldable pub delivery_worker : RunnerConfig → List Turn → Runner → Runner
unfolding worker_turn
delivery_worker config [] r = r
delivery_worker config (turn ∷ turns) r = delivery_worker config turns (worker_turn config turn r)

abbrev pub task_of : Env → Text → Text → WebhookRecord → DeliveryTask
task_of env payload mid rec = record {
  webhook_id = rec.id;
  tenant_id = rec.tenant_id;
  payload = payload;
  attempt = 1;
  max_retries = rec.max_retries;
  next_at = env.clock;
  mid = mid;
}

abbrev pub is_match : Text → WebhookRecord → Bool
is_match channel rec = elim (match_routing_pattern rec.channel_pattern channel) [
  | ok matched ↦ matched
  | err e ↦ false
]

-- The loop of eventConsumer over the webhooks of the tenant.
unfoldable pub intake_records :
    RunnerConfig → Env → Text → Text → Text → List WebhookRecord → Runner → Runner
intake_records config env channel payload mid [] r = r
intake_records config env channel payload mid (rec ∷ records) r =
    let sent =
      or_full (try_send config.intake_size (task_of env payload mid rec) r.intake) r.intake in
    intake_records config env channel payload mid records
      (if is_match channel rec then record r { intake = sent } else r)

unfoldable pub consume_event : RunnerConfig → Env → Text → Text → Text → Text → Runner → Runner
unfolding intake_records
consume_event config env slug channel payload mid r =
    intake_records config env channel payload mid (get_records_by_slug slug env.cache) r
