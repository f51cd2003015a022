-- ===== src/Broadcast/Slow.antt =====
-- A client whose buffer stays full: when the server closes it.
use sukko.Common.{
  ◌+◌, ◌-◌, ◌≤◌, ◌<◌, ◌≡◌, ◌∙◌, true, List, [], ◌∷◌, ◌++◌, arith, if◌then◌else◌, leb, length,
}
use sukko.Broadcast.{
  BroadcastEnvelope, broadcast_msg, Client, ServerConfig, notify_gap, close_slow, drop_message,
  send_to,
}

-- Broadcasts to one client, the last in front, whose write loop does not run in between.
abbrev pub send_each : ServerConfig → List BroadcastEnvelope → Client → Client
send_each config [] c = c
send_each config (envelope ∷ envelopes) c = send_to config envelope (send_each config envelopes c)

abbrev pub IsFull : ServerConfig → Client → Type 0
IsFull config c = (c.has_transport ≡ true) × (config.client_send_buffer_size ≤ length c.send)

send_to-IsFull :
    (config : ServerConfig) (envelope : BroadcastEnvelope) (c : Client)
    → IsFull config c
    → let c' = send_to config envelope c in
      IsFull config c'
      × (c'.last_seq ≡ c.last_seq + 1)
      × (c'.send ≡ c.send)
      × (c'.send_attempts ≡ c.send_attempts + 1)
      × (c'.closes
          ≡ c.closes + (if leb config.slow_client_max_attempts (c.send_attempts + 1) then 1 else 0))
unfolding send_to drop_message close_slow notify_gap
send_to-IsFull config envelope c (there, full) = ground (arith, there, full)

-- Broadcasts to a client whose buffer stays full: each takes a number and puts nothing into the
-- buffer; the failures add up, and from the one that reaches the limit on, each broadcast closes the
-- transport.
pub send_each-closes :
    (config : ServerConfig) (envelopes : List BroadcastEnvelope) (c : Client)
    → IsFull config c
    → c.send_attempts < config.slow_client_max_attempts
    → let c' = send_each config envelopes c in
      let n = length envelopes in
      IsFull config c'
      × (c'.last_seq ≡ c.last_seq + n)
      × (c'.send ≡ c.send)
      × (c'.send_attempts ≡ c.send_attempts + n)
      × (c'.closes ≡ c.closes + ((c.send_attempts + n + 1) - config.slow_client_max_attempts))
send_each-closes config [] c full below = ground (arith, full)
send_each-closes config (envelope ∷ envelopes) c full below =
    let (f, last, send, attempts, closes) = send_each-closes config envelopes c full below in
    let (f', last', send', attempts', closes') =
      send_to-IsFull config envelope (send_each config envelopes c) f in
    (
      f',
      omega (arith, last, last'),
      send' ∙ send,
      omega (arith, attempts, attempts'),
      ground (arith, attempts, closes, closes'),
    )

-- A broadcast never closes a client that has room for the message, and clears its failures.
pub send_to-room :
    (config : ServerConfig) (envelope : BroadcastEnvelope) (c : Client)
    → c.has_transport ≡ true
    → length c.send < config.client_send_buffer_size
    → let c' = send_to config envelope c in
      (c'.send ≡ c.send ++ broadcast_msg envelope (c.last_seq + 1) ∷ [])
      × (c'.send_attempts ≡ 0)
      × (c'.closes ≡ c.closes)
unfolding send_to
send_to-room config envelope c there room = ground (arith, there, room)
