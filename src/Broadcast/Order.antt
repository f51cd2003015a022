-- ===== src/Broadcast/Order.antt =====
-- In what order a client gets its messages.
use sukko.Common.{
  Bool, if◌then◌else◌, length, true, false, ℕ, ◌+◌, ◌≤◌, ◌<◌, ◌≡◌, refl, sym, ap, ap₂, subst, ◌⊎◌,
  inl, inr, Option, none, some, List, [], ◌∷◌, ◌++◌, arith, Bool-cases,
}
use sukko.Broadcast.{
  BroadcastEnvelope, GapNotification, OutgoingMsg, broadcast_msg, gap_msg, Client, ServerConfig,
  notify_gap, close_slow, drop_message, send_to, record_send_timeout_drops, handle_send_msg,
  coalesce_gap_notifications, requeue, forward_gap,
}
use sukko.Common.Queue.{try_send-cases}
use sukko.Broadcast.Events.{Event, sending, writing, forwarding, step, run_events}

-- The numbers of the broadcast messages rise, from above `low`.
abbrev pub Rising : ℕ → List OutgoingMsg → Type 0
Rising low [] = Unit {0}
Rising low (broadcast_msg envelope seq ∷ msgs) = (low < seq) × Rising seq msgs
Rising low (gap_msg gap ∷ msgs) = Rising low msgs

-- The number of the last broadcast message, or `low`.
abbrev pub last_of : ℕ → List OutgoingMsg → ℕ
last_of low [] = low
last_of low (broadcast_msg envelope seq ∷ msgs) = last_of seq msgs
last_of low (gap_msg gap ∷ msgs) = last_of low msgs

-- What was written, and behind it what waits to be written.
abbrev pub sent : Client → List OutgoingMsg
sent c = c.written ++ c.send

-- The messages of a client are in the order of their numbers, none of them twice, and none has a
-- number that was not given out.
abbrev pub InOrder : Client → Type 0
InOrder c = Rising 0 (sent c) × (last_of 0 (sent c) ≤ c.last_seq)

append_assoc : (xs ys zs : List OutgoingMsg) → (xs ++ ys) ++ zs ≡ xs ++ (ys ++ zs)
append_assoc [] ys zs = refl
append_assoc (x ∷ xs) ys zs = ap (λ rest. x ∷ rest) (append_assoc xs ys zs)

Rising-append_msg :
    (low n : ℕ) (envelope : BroadcastEnvelope) (msgs : List OutgoingMsg)
    → Rising low msgs
    → last_of low msgs < n
    → Rising low (msgs ++ broadcast_msg envelope n ∷ [])
      × (last_of low (msgs ++ broadcast_msg envelope n ∷ []) ≡ n)
Rising-append_msg low n envelope [] rising below = ((below, tt), refl)
Rising-append_msg low n envelope (broadcast_msg other seq ∷ msgs) (above, rising) below =
    let (r, l) = Rising-append_msg seq n envelope msgs rising below in ((above, r), l)
Rising-append_msg low n envelope (gap_msg gap ∷ msgs) rising below =
    Rising-append_msg low n envelope msgs rising below

Rising-append_gap :
    (low : ℕ) (gap : GapNotification) (msgs : List OutgoingMsg)
    → Rising low msgs
    → Rising low (msgs ++ gap_msg gap ∷ [])
      × (last_of low (msgs ++ gap_msg gap ∷ []) ≡ last_of low msgs)
Rising-append_gap low gap [] rising = (tt, refl)
Rising-append_gap low gap (broadcast_msg other seq ∷ msgs) (above, rising) =
    let (r, l) = Rising-append_gap seq gap msgs rising in ((above, r), l)
Rising-append_gap low gap (gap_msg other ∷ msgs) rising = Rising-append_gap low gap msgs rising

-- Two clients with the same messages, the second of which may have given out more numbers.
InOrder-same :
    (c c' : Client) → sent c' ≡ sent c → c.last_seq ≤ c'.last_seq → InOrder c → InOrder c'
InOrder-same c c' same more (rising, within) =
    (subst (Rising 0) (sym same) rising, omega (arith, ap (last_of 0) same))

drop_message-sent :
    (config : ServerConfig) (envelope : BroadcastEnvelope) (n : ℕ) (c : Client)
    → (sent (drop_message config envelope n c) ≡ sent c)
      × ((drop_message config envelope n c).last_seq ≡ c.last_seq)
unfolding drop_message close_slow notify_gap
drop_message-sent config envelope n c = ground arith

send_to-InOrder :
    (config : ServerConfig) (envelope : BroadcastEnvelope) (c : Client)
    → InOrder c
    → InOrder (send_to config envelope c)
unfolding send_to
send_to-InOrder config envelope c (rising, within) = elim (Bool-cases c.has_transport) [
  | inr gone ↦ rw gone (rising, within)
  | inl there ↦
      let n = c.last_seq + 1 in
      let msg = broadcast_msg envelope n in
      elim (try_send-cases config.client_send_buffer_size msg c.send) [
        | inl full ↦
            let (same, last) = drop_message-sent config envelope n (record c { last_seq = n }) in
            rw (there, full)
              (InOrder-same c (drop_message config envelope n (record c { last_seq = n })) same
                (omega (arith, last)) (rising, within))
        | inr queued ↦
            let (r, l) = Rising-append_msg 0 n envelope (sent c) rising (omega (arith, within)) in
            let e = append_assoc c.written c.send (msg ∷ []) in
            rw (there, queued) (subst (Rising 0) e r, omega (arith, l, ap (last_of 0) e))
      ]
]

-- The front of messages in order.
Rising-front :
    (low : ℕ) (xs ys : List OutgoingMsg)
    → Rising low (xs ++ ys)
    → Rising low xs × (last_of low xs ≤ last_of low (xs ++ ys)) × (low ≤ last_of low (xs ++ ys))
Rising-front low [] [] rising = (tt, omega arith, omega arith)
Rising-front low [] (broadcast_msg envelope seq ∷ ys) (above, rising) =
    let (_, _, l) = Rising-front seq [] ys rising in
    (tt, omega (arith, above, l), omega (arith, above, l))
Rising-front low [] (gap_msg gap ∷ ys) rising = Rising-front low [] ys rising
Rising-front low (broadcast_msg envelope seq ∷ xs) ys (above, rising) =
    let (r, l, m) = Rising-front seq xs ys rising in ((above, r), l, omega (arith, above, m))
Rising-front low (gap_msg gap ∷ xs) ys rising = Rising-front low xs ys rising

InOrder-of : (c c' : Client) → c' ≡ c → InOrder c → InOrder c'
InOrder-of c c' same ordered = subst InOrder (sym same) ordered

append_nil : (xs : List OutgoingMsg) → xs ++ [] ≡ xs
append_nil [] = refl
append_nil (x ∷ xs) = ap (λ rest. x ∷ rest) (append_nil xs)

Rising-lower :
    (low high : ℕ) (msgs : List OutgoingMsg)
    → low ≤ high
    → Rising high msgs
    → Rising low msgs × (last_of low msgs ≤ last_of high msgs)
Rising-lower low high [] h rising = (tt, h)
Rising-lower low high (broadcast_msg envelope seq ∷ msgs) h (above, rising) =
    ((omega (arith, h, above), rising), omega arith)
Rising-lower low high (gap_msg gap ∷ msgs) h rising = Rising-lower low high msgs h rising

-- Messages in order without one of them.
Rising-without :
    (low : ℕ) (xs : List OutgoingMsg) (msg : OutgoingMsg) (ys : List OutgoingMsg)
    → Rising low (xs ++ (msg ∷ ys))
    → Rising low (xs ++ ys) × (last_of low (xs ++ ys) ≤ last_of low (xs ++ (msg ∷ ys)))
Rising-without low [] (broadcast_msg envelope seq) ys (above, rising) =
    Rising-lower low seq ys (omega (arith, above)) rising
Rising-without low [] (gap_msg gap) ys rising = (rising, omega arith)
Rising-without low (broadcast_msg envelope seq ∷ xs) msg ys (above, rising) =
    let (r, l) = Rising-without seq xs msg ys rising in ((above, r), l)
Rising-without low (gap_msg gap ∷ xs) msg ys rising = Rising-without low xs msg ys rising

-- What is queued is written in its order, or lost.
handle_send_msg-InOrder :
    (sends : Bool) (c : Client) → InOrder c → InOrder (handle_send_msg sends c)
unfolding handle_send_msg record_send_timeout_drops
handle_send_msg-InOrder sends c ordered = from_queue c.send refl
  where
    from_queue : (queue : List OutgoingMsg) → c.send ≡ queue → InOrder (handle_send_msg sends c)
    from_queue [] e = ground (arith, e, ordered)
    from_queue (msg ∷ queue) e =
        let before = subst (λ q. Rising 0 (c.written ++ q)) e ordered.0 in
        let within = subst (λ q. last_of 0 (c.written ++ q) ≤ c.last_seq) e ordered.1 in
        elim (Bool-cases c.has_transport) [
          | inr gone ↦
              let (r, l) = Rising-without 0 c.written msg queue before in
              InOrder-of (record c { send = queue; loop_done = true }) (handle_send_msg sends c)
                (ground (arith, e, gone)) (r, omega (arith, l, within))
          | inl there ↦ elim (Bool-cases sends) [
            | inl written ↦
                let same = append_nil (c.written ++ (msg ∷ queue)) in
                InOrder-of (record c { send = []; written = c.written ++ (msg ∷ queue) })
                  (handle_send_msg sends c) (ground (arith, e, there, written))
                  (subst (Rising 0) (sym same) before, omega (arith, ap (last_of 0) same, within))
            | inr failed ↦
                let (r, l, _) = Rising-front 0 c.written (msg ∷ queue) before in
                let same = append_nil c.written in
                let lost : Client = record c {
                  send = [];
                  loop_done = true;
                  send_timeout_drops = c.send_timeout_drops + length (msg ∷ queue) + 0;
                } in
                InOrder-of lost (handle_send_msg sends c) (ground (arith, e, there, failed))
                  (subst (Rising 0) (sym same) r, omega (arith, ap (last_of 0) same, l, within))
          ]
        ]

requeue-sent :
    (config : ServerConfig) (overflow : Option GapNotification) (c : Client)
    → let c' = requeue config overflow c in
      (c'.written ≡ c.written) × (c'.send ≡ c.send) × (c'.last_seq ≡ c.last_seq)
unfolding requeue notify_gap
requeue-sent config none c = (refl, refl, refl)
requeue-sent config (some lost) c = ground arith

-- Forwarding puts at most a notification behind what is sent.
forward_gap-sent :
    (config : ServerConfig) (c : Client)
    → ((forward_gap config c).last_seq ≡ c.last_seq)
      × ((sent (forward_gap config c) ≡ sent c)
          ⊎ ((gap : GapNotification) × (sent (forward_gap config c) ≡ sent c ++ gap_msg gap ∷ [])))
unfolding forward_gap
forward_gap-sent config c = from_queue c.gap_chan refl
  where
    from_queue :
        (queue : List GapNotification)
        → c.gap_chan ≡ queue
        → ((forward_gap config c).last_seq ≡ c.last_seq)
          × ((sent (forward_gap config c) ≡ sent c)
              ⊎ ((gap : GapNotification) × (sent (forward_gap config c)
                    ≡ sent c ++ gap_msg gap ∷ [])))
    from_queue [] e = rw e (refl, inl refl)
    from_queue (gap ∷ queue) e =
        let taken = coalesce_gap_notifications gap queue in
        let c0 = record c { gap_chan = taken.left } in
        let c1 = requeue config taken.overflow c0 in
        let msg = gap_msg taken.merged in
        let (written, queued, last) = requeue-sent config taken.overflow c0 in
        elim (try_send-cases config.client_send_buffer_size msg c1.send) [
          | inl full ↦ (
            ground (arith, e, full, last),
            inl (ground (arith, e, full, ap₂ (λ a b. a ++ b) written queued)),
          )
          | inr more ↦ (
            ground (arith, e, more, last),
            inr (
              taken.merged,
              ground (
                arith,
                e,
                more,
                ap₂ (λ a b. a ++ (b ++ msg ∷ [])) written queued,
                append_assoc c.written c.send (msg ∷ []),
              ),
            ),
          )
        ]

forward_gap-InOrder :
    (config : ServerConfig) (c : Client) → InOrder c → InOrder (forward_gap config c)
forward_gap-InOrder config c ordered =
    let (last, cases) = forward_gap-sent config c in
    elim cases [
      | inl same ↦ InOrder-same c (forward_gap config c) same (omega (arith, last)) ordered
      | inr (gap, more) ↦
          let (r, l) = Rising-append_gap 0 gap (sent c) ordered.0 in
          (subst (Rising 0) (sym more) r, omega (arith, last, l, ap (last_of 0) more, ordered.1))
    ]

by_loop : (done : Bool) (c c' : Client) → InOrder c → InOrder c' → InOrder (if done then c else c')
by_loop true c c' ordered ordered' = ordered
by_loop false c c' ordered ordered' = ordered'

step-InOrder :
    (config : ServerConfig) (event : Event) (c : Client) → InOrder c → InOrder (step config event c)
step-InOrder config (sending envelope) c ordered = send_to-InOrder config envelope c ordered
step-InOrder config (writing sends) c ordered =
    by_loop c.loop_done c (handle_send_msg sends c) ordered
      (handle_send_msg-InOrder sends c ordered)
step-InOrder config forwarding c ordered =
    by_loop c.loop_done c (forward_gap config c) ordered (forward_gap-InOrder config c ordered)

-- However broadcasts and the turns of the write loop interleave, a client gets its messages in the
-- order of their numbers and none of them twice, if that was so at the beginning.
pub run_events-InOrder :
    (config : ServerConfig) (events : List Event) (c : Client)
    → InOrder c
    → InOrder (run_events config events c)
run_events-InOrder config [] c ordered = ordered
run_events-InOrder config (event ∷ events) c ordered =
    run_events-InOrder config events (step config event c) (step-InOrder config event c ordered)
