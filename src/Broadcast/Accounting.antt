-- ===== src/Broadcast/Accounting.antt =====
-- What a client is told about the messages that it was to get.
use sukko.Common.{
  ℕ, suc, ◌+◌, ◌≤◌, ◌≡◌, refl, ap, ◌⊎◌, inl, inr, Bool, true, false, ◌||◌, Option, none, some, List,
  [], ◌∷◌, ◌++◌, arith, ◌==◌, nat_eq, list_eq, eq_iff, eq_refl, Bool-cases,
}
use sukko.Broadcast.{
  BroadcastEnvelope, GapNotification, OutgoingMsg, broadcast_msg, gap_msg, Client, ServerConfig,
  notify_gap, close_slow, drop_message, send_to, record_send_timeout_drops, handle_send_msg, widen,
  coalesce_gap_notifications, requeue, forward_gap,
}
use sukko.Common.Queue.{try_send-cases}
use sukko.Broadcast.Events.{
  covers, tells, any_msg, any_gap, accounted, Event, sending, writing, forwarding, step, run_events,
}

any_msg-append :
    (seq : ℕ) (xs ys : List OutgoingMsg)
    → any_msg seq (xs ++ ys) ≡ (any_msg seq xs || any_msg seq ys)
unfolding any_msg
any_msg-append seq [] ys = refl
any_msg-append seq (x ∷ xs) ys = ground (arith, any_msg-append seq xs ys)

any_gap-append :
    (seq : ℕ) (xs ys : List GapNotification)
    → any_gap seq (xs ++ ys) ≡ (any_gap seq xs || any_gap seq ys)
unfolding any_gap
any_gap-append seq [] ys = refl
any_gap-append seq (x ∷ xs) ys = ground (arith, any_gap-append seq xs ys)

-- A client whose notifications were all kept is told of every message up to its last one.
abbrev pub Told : Client → Type 0
Told c =
    c.loop_done ≡ false
    → c.gaps_dropped ≡ 0
    → (seq : ℕ) → suc seq ≤ c.last_seq
    → accounted (suc seq) c ≡ true

widen-covers :
    (seq : ℕ) (merged gap : GapNotification)
    → (covers seq merged || covers seq gap) ≡ true
    → covers seq (widen merged gap) ≡ true
widen-covers seq merged gap h = ground arith

abbrev any_overflow : ℕ → Option GapNotification → Bool
any_overflow seq none = false
any_overflow seq (some gap) = covers seq gap

coalesce_gap_notifications-covers :
    (seq : ℕ) (first : GapNotification) (queue : List GapNotification)
    → (covers seq first || any_gap seq queue) ≡ true
    → let taken = coalesce_gap_notifications first queue in
      (covers seq taken.merged || any_overflow seq taken.overflow || any_gap seq taken.left) ≡ true
unfolding coalesce_gap_notifications any_gap
coalesce_gap_notifications-covers seq first [] h = ground arith
coalesce_gap_notifications-covers seq first (gap ∷ queue) h =
    elim (Bool-cases (gap.channel == first.channel)) [
      | inl same ↦ rw same (
          coalesce_gap_notifications-covers seq (widen first gap) queue
            (ground (arith, widen-covers seq first gap)))
      | inr other ↦ rw other (ground arith)
    ]

notify_gap-tells :
    (config : ServerConfig) (gap : GapNotification) (c : Client) (seq : ℕ)
    → (notify_gap config gap c).gaps_dropped ≡ 0
    → (c.gaps_dropped ≡ 0)
      × (accounted seq (notify_gap config gap c) ≡ (accounted seq c || covers seq gap))
unfolding notify_gap any_gap
notify_gap-tells config gap c seq h =
    elim (try_send-cases config.gap_notify_buffer_size gap c.gap_chan) [
      | inl full ↦ ground (arith, full)
      | inr sent ↦ ground (arith, sent, any_gap-append seq c.gap_chan (gap ∷ []))
    ]

-- While the write loop goes on, writing loses nothing.
handle_send_msg-tells :
    (sends : Bool) (c : Client) (seq : ℕ)
    → let c' = handle_send_msg sends c in
      c'.loop_done ≡ false
      → (c'.gaps_dropped ≡ c.gaps_dropped)
        × (c'.last_seq ≡ c.last_seq)
        × (accounted seq c' ≡ accounted seq c)
unfolding handle_send_msg record_send_timeout_drops any_msg
handle_send_msg-tells sends c seq = from_queue c.send refl
  where
    from_queue :
        (queue : List OutgoingMsg)
        → c.send ≡ queue
        → let c' = handle_send_msg sends c in
          c'.loop_done ≡ false
          → (c'.gaps_dropped ≡ c.gaps_dropped)
            × (c'.last_seq ≡ c.last_seq)
            × (accounted seq c' ≡ accounted seq c)
    from_queue [] e h = ground (arith, e)
    from_queue (msg ∷ queue) e h = ground (arith, e, any_msg-append seq c.written (msg ∷ queue))

-- The write loop that goes on after a step went on before it.
still_runs :
    (config : ServerConfig) (event : Event) (c : Client)
    → (step config event c).loop_done ≡ false
    → c.loop_done ≡ false
unfolding send_to drop_message close_slow notify_gap handle_send_msg record_send_timeout_drops
still_runs config (sending envelope) c h = ground arith
still_runs config (writing sends) c h = ground arith
still_runs config forwarding c h = ground arith

drop_message-tells :
    (config : ServerConfig) (envelope : BroadcastEnvelope) (n : ℕ) (c : Client) (seq : ℕ)
    → let c' = drop_message config envelope n c in
      c'.gaps_dropped ≡ 0
      → (c.gaps_dropped ≡ 0)
        × (c'.last_seq ≡ c.last_seq)
        × (accounted seq c' ≡ (accounted seq c || n == seq))
unfolding drop_message close_slow notify_gap
drop_message-tells config envelope n c seq h =
    let gap : GapNotification = record {
      channel = envelope.channel;
      from_seq = n;
      to_seq = n;
      last_pos = envelope.pos;
    } in
    let c1 = record c { send_attempts = c.send_attempts + 1 } in
    ground (arith, notify_gap-tells config gap c1 seq, eq_iff n seq)

send_to-tells :
    (config : ServerConfig) (envelope : BroadcastEnvelope) (c : Client) (seq : ℕ)
    → let c' = send_to config envelope c in
      c'.gaps_dropped ≡ 0
      → (c.gaps_dropped ≡ 0)
        × ((c' ≡ c)
            ⊎ ((c'.last_seq ≡ c.last_seq + 1)
                × (accounted seq c' ≡ (accounted seq c || c.last_seq + 1 == seq))))
unfolding send_to any_msg
send_to-tells config envelope c seq h = elim (Bool-cases c.has_transport) [
  | inr gone ↦ ground (arith, gone)
  | inl there ↦
      let n = c.last_seq + 1 in
      let msg = broadcast_msg envelope n in
      elim (try_send-cases config.client_send_buffer_size msg c.send) [
        | inl full ↦ ground (
          arith,
          there,
          full,
          drop_message-tells config envelope n (record c { last_seq = n }) seq,
        )
        | inr sent ↦ ground (arith, there, sent, any_msg-append seq c.send (msg ∷ []))
      ]
]

send_to-Told :
    (config : ServerConfig) (envelope : BroadcastEnvelope) (c : Client)
    → Told c
    → Told (send_to config envelope c)
send_to-Told config envelope c told runs h seq within =
    let (kept, cases) = send_to-tells config envelope c (suc seq) h in
    elim cases [
      | inl same ↦ rw same (
          told (still_runs config (sending envelope) c runs) kept seq
            (ground (arith, ap (λ x. x.last_seq) same)))
      | inr (last, tells) ↦ elim (Bool-cases (c.last_seq + 1 == suc seq)) [
        | inl new ↦ rw tells (ground (arith, new))
        | inr old ↦
            rw
              (
                tells,
                told (still_runs config (sending envelope) c runs) kept seq
                    (ground (arith, last, old, eq_refl (suc seq))),
              )
              refl
      ]
    ]

requeue-tells :
    (config : ServerConfig) (overflow : Option GapNotification) (c : Client) (seq : ℕ)
    → let c' = requeue config overflow c in
      c'.gaps_dropped ≡ 0
      → (c.gaps_dropped ≡ 0)
        × (c'.last_seq ≡ c.last_seq)
        × (accounted seq c' ≡ (accounted seq c || any_overflow seq overflow))
unfolding requeue notify_gap
requeue-tells config none c seq h = ground arith
requeue-tells config (some lost) c seq h = ground (arith, notify_gap-tells config lost c seq)

forward_gap-tells :
    (config : ServerConfig) (c : Client) (seq : ℕ)
    → let c' = forward_gap config c in
      c'.gaps_dropped ≡ 0
      → (c.gaps_dropped ≡ 0)
        × (c'.last_seq ≡ c.last_seq)
        × (accounted seq c ≡ true → accounted seq c' ≡ true)
unfolding forward_gap any_msg any_gap
forward_gap-tells config c seq = from_queue c.gap_chan refl
  where
    from_queue :
        (queue : List GapNotification)
        → c.gap_chan ≡ queue
        → let c' = forward_gap config c in
          c'.gaps_dropped ≡ 0
          → (c.gaps_dropped ≡ 0)
            × (c'.last_seq ≡ c.last_seq)
            × (accounted seq c ≡ true → accounted seq c' ≡ true)
    from_queue [] e h = ground (arith, e)
    from_queue (gap ∷ queue) e h =
        let taken = coalesce_gap_notifications gap queue in
        let c0 = record c { gap_chan = taken.left } in
        let c1 = requeue config taken.overflow c0 in
        let msg = gap_msg taken.merged in
        elim (try_send-cases config.client_send_buffer_size msg c1.send) [
          | inl full ↦ ground (arith, e, full)
          | inr sent ↦ ground (
            arith,
            e,
            sent,
            any_msg-append seq c1.send (msg ∷ []),
            requeue-tells config taken.overflow c0 seq,
            coalesce_gap_notifications-covers seq gap queue,
          )
        ]

step-Told :
    (config : ServerConfig) (event : Event) (c : Client) → Told c → Told (step config event c)
step-Told config (sending envelope) c told runs h seq within =
    send_to-Told config envelope c told runs h seq within
step-Told config forwarding c told runs h seq within =
    let before = still_runs config forwarding c runs in
    let (kept, last, keeps) = forward_gap-tells config c (suc seq) (ground (arith, before, h)) in
    let had = told before kept seq (ground (arith, before, last, within)) in
    ground (arith, before, keeps had)
step-Told config (writing sends) c told runs h seq within =
    let before = still_runs config (writing sends) c runs in
    let (kept, last, same) =
      handle_send_msg-tells sends c (suc seq) (ground (arith, before, runs)) in
    let had =
      told before (ground (arith, before, kept, h)) seq (ground (arith, before, last, within)) in
    ground (arith, before, same, had)

-- However broadcasts and the turns of the write loop interleave: while the write loop runs, which a
-- write that fails or a transport that is gone ends, and no gap notification was dropped, a client that
-- starts with nothing sent has got each message up to its last number, or a notification that covers
-- it, or that message or notification is still queued for it.
pub run_events-Told :
    (config : ServerConfig) (events : List Event) (c : Client)
    → Told c
    → Told (run_events config events c)
run_events-Told config [] c told = told
run_events-Told config (event ∷ events) c told =
    run_events-Told config events (step config event c) (step-Told config event c told)
