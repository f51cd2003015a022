-- ===== src/Webhooks/Overflow.antt =====
-- A retry queue that is full: which task is dropped, and what is left.
use sukko.Common.{
  ◌-◌, ◌⊎◌, Elem, Elem-append_left, Elem-append_right, if◌then◌else◌, ◌==◌, length-append, ℕ, zero,
  suc, ◌+◌, ◌≤◌, ◌≡◌, refl, sym, ap, subst, ◌∙◌, inl, inr, some, List, [], ◌∷◌, ◌++◌, arith, ltb,
  nat_eq, list_eq, Bool-cases, length, take, drop, All, All-append,
}
use mathlib.Core.List.{append-nil}
use sukko.Common.Queue.{try_send, try_send-cases}
use sukko.Webhooks.Runner.{
  DeliveryTask, DeliveryRecord, RunnerConfig, Env, arrive, refill, record_overflow, label_dropped,
  Runner, record_delivery, furthest_from, task_at, drop_idx_of, record_dropped, drop_oldest,
}

abbrev pub NotAfter : DeliveryTask → DeliveryTask → Type 0
NotAfter d t = t.next_at ≤ d.next_at

task_at-append :
    (pre : List DeliveryTask) (t : DeliveryTask) (tasks : List DeliveryTask)
    → task_at (length pre) (pre ++ t ∷ tasks) ≡ some t
task_at-append [] t tasks = refl
task_at-append (p ∷ pre) t tasks = task_at-append pre t tasks

append_one :
    (pre : List DeliveryTask) (t : DeliveryTask) (tasks : List DeliveryTask)
    → pre ++ t ∷ tasks ≡ (pre ++ t ∷ []) ++ tasks
append_one [] t tasks = refl
append_one (p ∷ pre) t tasks = ap (◌∷◌ p) (append_one pre t tasks)

length_one : (pre : List DeliveryTask) (t : DeliveryTask) → length (pre ++ t ∷ []) ≡ length pre + 1
length_one [] t = omega arith
length_one (p ∷ pre) t = omega (arith, length_one pre t)

NotAfter-trans :
    (b d : DeliveryTask) (tasks : List DeliveryTask)
    → b.next_at ≤ d.next_at
    → All (NotAfter b) tasks
    → All (NotAfter d) tasks
NotAfter-trans b d [] h k = tt
NotAfter-trans b d (t ∷ tasks) h k = (omega (arith, h, k.0), NotAfter-trans b d tasks h k.1)

-- The loop has found the task with the latest time of those before `i`, and goes on with the rest.
furthest_from_lem :
    (xs pre : List DeliveryTask) (idx : ℕ) (b : DeliveryTask) (tasks : List DeliveryTask)
    → xs ≡ pre ++ tasks
    → task_at idx xs ≡ some b
    → All (NotAfter b) pre
    → (d : DeliveryTask) × (task_at (furthest_from idx b.next_at (length pre) tasks) xs ≡ some d)
      × All (NotAfter d) xs
unfolding furthest_from
furthest_from_lem xs pre idx b [] e at h =
    (b, at, subst (All (NotAfter b)) (sym (e ∙ append-nil pre)) h)
furthest_from_lem xs pre idx b (t ∷ tasks) e at h =
    let e' = e ∙ append_one pre t tasks in
    let here : task_at (length pre) xs ≡ some t =
      ap (task_at (length pre)) e ∙ task_at-append pre t tasks in
    elim (Bool-cases (ltb b.next_at t.next_at)) [
      | inl later ↦
          let below = NotAfter-trans b t pre (ground (arith, later)) h in
          let found =
            furthest_from_lem xs (pre ++ t ∷ []) (length pre) t tasks e' here
              (All-append (NotAfter t) pre (t ∷ []) below (omega arith, tt)) in
          rw (later, sym (length_one pre t)) found
      | inr earlier ↦
          let found =
            furthest_from_lem xs (pre ++ t ∷ []) idx b tasks e' at
              (All-append (NotAfter b) pre (t ∷ []) h (ground (arith, earlier), tt)) in
          rw (earlier, sym (length_one pre t)) found
    ]

split_at :
    (idx : ℕ) (xs : List DeliveryTask) (d : DeliveryTask)
    → task_at idx xs ≡ some d
    → xs ≡ take idx xs ++ d ∷ drop (idx + 1) xs
split_at idx [] d h = absurd (ground (arith, h))
split_at zero (x ∷ xs) d h = ground (arith, h)
split_at (suc idx) (x ∷ xs) d h =
    let e : suc idx + 1 ≡ suc (idx + 1) = omega arith in rw e (ap (◌∷◌ x) (split_at idx xs d h))

abbrev pub dropped_record : DeliveryTask → DeliveryRecord
dropped_record t = record {
  webhook_id = t.webhook_id;
  tenant_id = t.tenant_id;
  attempt = t.attempt;
  label = label_dropped;
}

abbrev pub dropped_records : List DeliveryTask → List DeliveryRecord
dropped_records [] = []
dropped_records (t ∷ tasks) = dropped_record t ∷ dropped_records tasks

-- No other worker sends to the retry queue while it is refilled.
abbrev pub IsAlone : Env → Type 0
IsAlone env = (n : ℕ) → env.others n ≡ []

-- What a full queue loses to an incoming task.
pub record Overflowed (config : RunnerConfig) (env : Env) (incoming : DeliveryTask) (r r' : Runner)
    : Type 0 where
  pub dropped : DeliveryTask
  pub front : List DeliveryTask
  pub back : List DeliveryTask
  pub overflow : List DeliveryTask
  pub before : r.retry_queue ≡ front ++ dropped ∷ back
  pub furthest : All (NotAfter dropped) r.retry_queue
  pub kept :
      (t : DeliveryTask)
      → Elem t (front ++ back ++ incoming ∷ [])
      → Elem t r'.retry_queue ⊎ Elem t overflow
  pub recorded :
      r'.deliveries
      ≡ r.deliveries
        ++ dropped_records overflow
        ++ (if dropped.webhook_id == [] then [] else dropped_record dropped ∷ [])
  pub alone :
      IsAlone env
      → length r.retry_queue ≤ config.retry_queue_size
      → (overflow ≡ []) × (r'.retry_queue ≡ front ++ back ++ incoming ∷ [])

append_nil {ℓ} : {A : Type ℓ} → (xs : List A) → xs ++ [] ≡ xs
append_nil [] = refl
append_nil (x ∷ xs) = ap (◌∷◌ x) (append_nil xs)

take_nil : (n : ℕ) → take {A = DeliveryTask} n [] ≡ []
take_nil zero = refl
take_nil (suc n) = refl

-- A task that is sent is queued, or among those that found the queue full.
refill-Elem :
    (size : ℕ) (others : ℕ → List DeliveryTask) (tasks queue : List DeliveryTask) (t : DeliveryTask)
    → Elem t queue ⊎ Elem t tasks
    → let (filled, drops) = refill size others tasks queue in Elem t filled ⊎ Elem t drops
unfolding refill
refill-Elem size others [] queue t (inl there) = inl there
refill-Elem size others [] queue t (inr nowhere) = absurd nowhere
refill-Elem size others (u ∷ tasks) queue t h =
    let q = arrive size (others (length tasks)) queue in
    elim (try_send-cases size u q) [
      | inl full ↦
          let runs : refill size others (u ∷ tasks) queue
              ≡ ((refill size others tasks q).0, u ∷ (refill size others tasks q).1) =
            ground (arith, full) in
          rw runs (elim h [
            | inl there ↦
                elim (refill-Elem size others tasks q t (
                  inl (
                    Elem-append_left t queue (take (size - length queue) (others (length tasks)))
                      there))) [ inl filled ↦ inl filled | inr lost ↦ inr (inr lost) ]
            | inr (inl this) ↦ inr (inl this)
            | inr (inr later) ↦ elim (refill-Elem size others tasks q t (inr later)) [
              | inl filled ↦ inl filled
              | inr lost ↦ inr (inr lost)
            ]
          ])
      | inr sent ↦
          let runs : refill size others (u ∷ tasks) queue ≡ refill size others tasks (q ++ u ∷ []) =
            ground (arith, sent) in
          rw runs (
            refill-Elem size others tasks (q ++ u ∷ []) t (elim h [
              | inl there ↦ inl (
                  Elem-append_left t q (u ∷ []) (
                    Elem-append_left t queue (take (size - length queue) (others (length tasks)))
                      there))
              | inr (inl this) ↦ inl (Elem-append_right t q (u ∷ []) (inl this))
              | inr (inr later) ↦ inr later
            ]))
    ]

pub arrive_alone :
    (size : ℕ) (sent queue : List DeliveryTask) → sent ≡ [] → arrive size sent queue ≡ queue
arrive_alone size sent queue none_ =
    ap (λ xs. queue ++ take (size - length queue) xs) none_
    ∙ ap (λ xs. queue ++ xs) (take_nil (size - length queue))
    ∙ append_nil queue

refill_alone :
    (size : ℕ) (others : ℕ → List DeliveryTask) (tasks queue : List DeliveryTask)
    → ((n : ℕ) → others n ≡ [])
    → length queue + length tasks ≤ size
    → refill size others tasks queue ≡ (queue ++ tasks, [])
unfolding refill
refill_alone size others [] queue alone room = ap (λ xs. (xs, [])) (sym (append_nil queue))
refill_alone size others (t ∷ tasks) queue alone room =
    let q = arrive size (others (length tasks)) queue in
    let same : q ≡ queue = arrive_alone size (others (length tasks)) queue (alone (length tasks)) in
    let sent : try_send size t q ≡ some (queue ++ t ∷ []) =
      ap (try_send size t) same ∙ ground (arith, room) in
    let runs : refill size others (t ∷ tasks) queue ≡ refill size others tasks (queue ++ t ∷ []) =
      ground (arith, sent) in
    runs
    ∙ refill_alone size others tasks (queue ++ t ∷ []) alone
        (omega (arith, room, length_one queue t))
    ∙ ap (λ xs. (xs, [])) (sym (append_one queue t tasks))

pub record_overflow_lem :
    (drops : List DeliveryTask) (r : Runner)
    → ((record_overflow drops r).retry_queue ≡ r.retry_queue)
      × ((record_overflow drops r).deliveries ≡ r.deliveries ++ dropped_records drops)
unfolding record_overflow record_delivery
record_overflow_lem [] r = (refl, sym (append_nil r.deliveries))
record_overflow_lem (t ∷ drops) r =
    let (queue, delivered) = record_overflow_lem drops (record_delivery t label_dropped r) in
    (queue, delivered ∙ append_record r.deliveries (dropped_record t) (dropped_records drops))
  where
    append_record :
        (xs : List DeliveryRecord) (x : DeliveryRecord) (ys : List DeliveryRecord)
        → (xs ++ x ∷ []) ++ ys ≡ xs ++ (x ∷ ys)
    append_record [] x ys = refl
    append_record (z ∷ xs) x ys = ap (◌∷◌ z) (append_record xs x ys)

record_dropped_lem :
    (t : DeliveryTask) (r : Runner)
    → ((record_dropped (some t) r).retry_queue ≡ r.retry_queue)
      × ((record_dropped (some t) r).deliveries
          ≡ r.deliveries ++ (if t.webhook_id == [] then [] else dropped_record t ∷ []))
unfolding record_dropped record_delivery
record_dropped_lem t r = (ground arith, ground (arith, append_nil r.deliveries))

-- A retry that meets a full queue takes the place of one task, which is due at the latest time of all
-- that are queued, and is recorded as dropped if it names a webhook. Of the others and the incoming
-- one each is queued again, or has found the queue full, because other workers sent to it meanwhile,
-- and is recorded as dropped; nothing else is. Where no other worker sends and the queue was within
-- its size, none finds it full, and they are queued in their order, the incoming one last.
pub drop_oldest-Overflowed :
    (config : RunnerConfig) (env : Env) (incoming first : DeliveryTask) (tasks : List DeliveryTask)
    (r : Runner)
    → r.retry_queue ≡ first ∷ tasks
    → Overflowed config env incoming r (drop_oldest config env incoming r)
unfolding drop_oldest
drop_oldest-Overflowed config env incoming first tasks r e =
    let q = r.retry_queue in
    let (d, at, furthest) =
      furthest_from_lem (first ∷ tasks) [] 0 first (first ∷ tasks) refl refl tt in
    let idx = drop_idx_of q in
    let found : task_at idx q ≡ some d = rw e at in
    let rest = take idx q ++ drop (idx + 1) q ++ incoming ∷ [] in
    let filled = refill config.retry_queue_size env.others rest [] in
    let r1 = record r { retry_queue = filled.0 } in
    let r2 = record_overflow filled.1 r1 in
    let (queue, overflown) = record_overflow_lem filled.1 r1 in
    let (kept, delivered) = record_dropped_lem d r2 in
    let runs : drop_oldest config env incoming r ≡ record_dropped (some d) r2 =
      ap (λ o. record_dropped o r2) found in
    let whole = split_at idx q d found in
    record {
      dropped = d;
      front = take idx q;
      back = drop (idx + 1) q;
      overflow = filled.1;
      before = whole;
      furthest = rw e furthest;
      kept = λ t m.
          subst (λ xs. Elem t xs ⊎ Elem t filled.1)
            (sym (ap (λ x. x.retry_queue) runs ∙ kept ∙ queue))
            (refill-Elem config.retry_queue_size env.others rest [] t (inr m));
      recorded =
          ap (λ x. x.deliveries) runs
          ∙ delivered
          ∙ ap (λ xs. xs ++ (if d.webhook_id == [] then [] else dropped_record d ∷ [])) overflown;
      alone = λ none_ room.
          let all = refill_alone config.retry_queue_size env.others rest [] none_ (
            omega (
              arith,
              room,
              ap length whole,
              length-append (take idx q) (d ∷ drop (idx + 1) q),
              length-append (take idx q ++ drop (idx + 1) q) (incoming ∷ []),
              length-append (take idx q) (drop (idx + 1) q),
            )) in
          (ap (λ x. x.1) all, ap (λ x. x.retry_queue) runs ∙ kept ∙ queue ∙ ap (λ x. x.0) all);
    }
