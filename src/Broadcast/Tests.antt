-- ===== src/Broadcast/Tests.antt =====
-- Concrete clients: one that reads, one whose buffer is full and a server with both.
use sukko.Common.{
  ◌≡◌, refl, true, false, not, ◌&&◌, List, [], ◌∷◌, arith, if◌then◌else◌, ◌==◌, nat_eq, list_eq,
}
use sukko.Common.Text.{codes}
use sukko.Subscriptions.Index.{new_subscription_index}
use sukko.Subscriptions.Refinement.{Operation, add, remove, run, subscribed}
use sukko.Broadcast.{
  BroadcastEnvelope, broadcast_msg, gap_msg, Client, ServerConfig, Server, extract_channel, send_to,
  handle_send_msg, forward_gap, broadcast,
}
use sukko.Broadcast.Events.{Event, sending, writing, forwarding, run_events}
use sukko.Broadcast.Accounting.{Told, run_events-Told}
use sukko.Broadcast.Order.{InOrder, run_events-InOrder}
use sukko.Broadcast.Slow.{IsFull, send_each, send_each-closes}
use sukko.Broadcast.Fanout.{envelope_of, broadcast-subscribed}

abbrev config : ServerConfig
config = record {
  client_send_buffer_size = 2;
  gap_notify_buffer_size = 2;
  slow_client_max_attempts = 2;
}

abbrev connected : Client
connected = record {
  has_transport = true;
  last_seq = 0;
  send = [];
  gap_chan = [];
  send_attempts = 0;
  closes = 0;
  gaps_dropped = 0;
  send_timeout_drops = 0;
  loop_done = false;
  written = [];
}

abbrev news : BroadcastEnvelope
news = envelope_of (codes "acme.news") (codes "{}") (codes "1-7") (codes "m")

-- Four messages, of which the last two do not fit; then two are written in one batch and the gap is forwarded.
abbrev session : List Event
session =
    sending news
    ∷ sending news
    ∷ sending news
    ∷ sending news
    ∷ writing true
    ∷ forwarding
    ∷ writing true
    ∷ []

session_written :
    (run_events config session connected).written
    ≡ broadcast_msg news 1
      ∷ broadcast_msg news 2
      ∷ gap_msg (record { channel = news.channel; from_seq = 3; to_seq = 4; last_pos = news.pos })
      ∷ []
unfolding send_to handle_send_msg forward_gap
session_written = refl

connected-Told : Told connected
connected-Told runs kept seq within = absurd (omega (arith, within))

run_events-Told_example : Told (run_events config session connected)
run_events-Told_example = run_events-Told config session connected connected-Told

abbrev full : Client
full = record connected { last_seq = 2; send = broadcast_msg news 1 ∷ broadcast_msg news 2 ∷ [] }

full-IsFull : IsFull config full
full-IsFull = (refl, omega arith)

send_each-closes_example :
    let c' = send_each config (news ∷ news ∷ news ∷ []) full in
    IsFull config c'
    × (c'.last_seq ≡ 5)
    × (c'.send ≡ full.send)
    × (c'.send_attempts ≡ 3)
    × (c'.closes ≡ 2)
send_each-closes_example =
    send_each-closes config (news ∷ news ∷ news ∷ []) full full-IsFull (omega arith)

abbrev operations : List Operation
operations =
    add (codes "acme.news") 1 ∷ add (codes "acme.news") 2 ∷ remove (codes "acme.news") 1 ∷ []

abbrev server : Server
server = record {
  subscription_index = run operations new_subscription_index;
  clients = λ id. connected;
  slow_clients_disconnected = 0;
}

no_channel : extract_channel (codes "acme..news") ≡ []
unfolding extract_channel
no_channel = refl

broadcast-subscribed_example :
    (broadcast config (codes "acme.news") (codes "{}") (codes "1-7") (codes "m") server).clients 2
    ≡ (if not (extract_channel (codes "acme.news") == [])
          && subscribed operations false (codes "acme.news") 2
        then send_to config news connected
        else connected)
broadcast-subscribed_example =
    broadcast-subscribed config operations (codes "acme.news") (codes "{}") (codes "1-7")
      (codes "m") server 2 refl

run_events-InOrder_example : InOrder (run_events config session connected)
run_events-InOrder_example = run_events-InOrder config session connected (tt, omega arith)
