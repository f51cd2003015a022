-- ===== src/Broadcast.antt =====
-- ws/internal/server/broadcast.go and the part of pump.go that writes to a client: how a message
-- reaches the clients of its channel. A client's channels are lists with their bounds. The pongs, the
-- pings, the timestamps, the logs and all metrics but three are left out; of the raw messages only the
-- gap notifications are there. The JSON of an envelope is not modelled; a string always has one. The
-- counters do not reach the bounds of their Go types.
use sukko.Common.{
  ℕ, zero, suc, ◌+◌, Bool, true, false, not, Option, none, some, List, [], ◌∷◌, ◌++◌, if◌then◌else◌,
  ltb, leb, ◌==◌, nat_eq, list_eq, length, contains,
}
use sukko.Common.Queue.{try_send, or_full}
use sukko.Common.Text.{Text, split}
use sukko.Routing.{dot}
use sukko.Subscriptions.Index.{SubscriptionIndex, get}
pub mod Events
pub mod Accounting
pub mod Slow
pub mod Order
pub mod Fanout
mod Tests

pub record BroadcastEnvelope : Type 0 where
  pub channel : Text
  pub payload : Text
  pub pos : Text
  pub mid : Text

pub record GapNotification : Type 0 where
  pub channel : Text
  pub from_seq : ℕ
  pub to_seq : ℕ
  pub last_pos : Text

pub data OutgoingMsg : Type 0 where
  broadcast_msg : BroadcastEnvelope → ℕ → OutgoingMsg
  gap_msg : GapNotification → OutgoingMsg

-- `has_transport`: the transport is not nil. `last_seq` is the counter of seqGen; `closes` counts the
-- calls of Close, `loop_done` says that the write loop has returned, and `written` is what the
-- transport has sent without an error.
pub record Client : Type 0 where
  pub has_transport : Bool
  pub last_seq : ℕ
  pub send : List OutgoingMsg
  pub gap_chan : List GapNotification
  pub send_attempts : ℕ
  pub closes : ℕ
  pub gaps_dropped : ℕ
  pub send_timeout_drops : ℕ
  pub loop_done : Bool
  pub written : List OutgoingMsg

pub record ServerConfig : Type 0 where
  pub client_send_buffer_size : ℕ
  pub gap_notify_buffer_size : ℕ
  pub slow_client_max_attempts : ℕ

-- A client is known by a number, which stands for its pointer.
pub record Server : Type 0 where
  pub subscription_index : SubscriptionIndex
  pub clients : ℕ → Client
  pub slow_clients_disconnected : ℕ

unfoldable pub extract_channel : Text → Text
unfolding split contains
extract_channel subject =
    let parts = split dot subject in
    if ltb (length parts) 2 then [] else if contains parts [] then [] else subject

-- The gap notification of a message that was dropped, or the count of one that was dropped too.
unfoldable pub notify_gap : ServerConfig → GapNotification → Client → Client
notify_gap config gap c = elim (try_send config.gap_notify_buffer_size gap c.gap_chan) [
  | none ↦ record c { gaps_dropped = c.gaps_dropped + 1 }
  | some queue ↦ record c { gap_chan = queue }
]

abbrev pub is_slow : ServerConfig → Client → Bool
is_slow config c = leb config.slow_client_max_attempts c.send_attempts

unfoldable pub close_slow : ServerConfig → Client → Client
close_slow config c = if is_slow config c then record c { closes = c.closes + 1 } else c

-- The branch of the select where the client's buffer is full.
unfoldable pub drop_message : ServerConfig → BroadcastEnvelope → ℕ → Client → Client
unfolding notify_gap close_slow
drop_message config envelope seq c =
    let gap : GapNotification = record {
      channel = envelope.channel;
      from_seq = seq;
      to_seq = seq;
      last_pos = envelope.pos;
    } in
    close_slow config (notify_gap config gap (record c { send_attempts = c.send_attempts + 1 }))

-- The body of the loop over the subscribers.
unfoldable pub send_to : ServerConfig → BroadcastEnvelope → Client → Client
unfolding drop_message
send_to config envelope c =
    let seq = c.last_seq + 1 in
    let c1 = record c { last_seq = seq } in
    let sent : Client =
      elim (try_send config.client_send_buffer_size (broadcast_msg envelope seq) c.send) [
        | none ↦ drop_message config envelope seq c1
        | some queue ↦ record c1 { send = queue; send_attempts = 0 }
      ] in
    if c.has_transport then sent else c

-- Whether that body has disconnected the client.
abbrev pub disconnects : ServerConfig → BroadcastEnvelope → Client → Bool
disconnects config envelope c = ltb c.closes (send_to config envelope c).closes

abbrev pub with_client : ℕ → Client → (ℕ → Client) → ℕ → Client
with_client id c clients other = if id == other then c else clients other

unfoldable pub send_all : ServerConfig → BroadcastEnvelope → List ℕ → Server → Server
unfolding send_to
send_all config envelope [] s = s
send_all config envelope (id ∷ subscribers) s =
    let c = s.clients id in
    let s1 : Server = record s {
      clients = with_client id (send_to config envelope c) s.clients;
      slow_clients_disconnected =
          s.slow_clients_disconnected + (if disconnects config envelope c then 1 else 0);
    } in
    send_all config envelope subscribers s1

unfoldable pub broadcast : ServerConfig → Text → Text → Text → Text → Server → Server
unfolding extract_channel send_all get
broadcast config subject message pos mid s =
    let channel = extract_channel subject in
    let envelope : BroadcastEnvelope = record {
      channel = channel;
      payload = message;
      pos = pos;
      mid = mid;
    } in
    let sent = send_all config envelope (get s.subscription_index channel) s in
    if channel == [] then s else sent

-- recordSendTimeoutDrops: the messages that failed and those still queued are dropped.
unfoldable pub record_send_timeout_drops : ℕ → Client → Client
record_send_timeout_drops failed_count c = record c {
  send = [];
  send_timeout_drops = c.send_timeout_drops + failed_count + length c.send;
}

-- handleSendMsg, with the message that the loop has taken: all that is queued goes to the transport
-- in one batch, which it sends (`sends`) or answers with an error. The loop returns on an error, and
-- where there is no transport any more.
unfoldable pub handle_send_msg : Bool → Client → Client
unfolding record_send_timeout_drops
handle_send_msg sends c = elim c.send [
  | [] ↦ c
  | msg ∷ queue ↦
      if not c.has_transport
      then record c { send = queue; loop_done = true }
      else if sends
      then record c { send = []; written = c.written ++ (msg ∷ queue) }
      else record_send_timeout_drops (length (msg ∷ queue))
          (record c { send = []; loop_done = true })
]

-- The notification, one of another channel that was taken too, and what is left in the channel.
pub record Coalesced : Type 0 where
  pub merged : GapNotification
  pub overflow : Option GapNotification
  pub left : List GapNotification

abbrev pub widen : GapNotification → GapNotification → GapNotification
widen merged gap = record merged {
  from_seq = if ltb gap.from_seq merged.from_seq then gap.from_seq else merged.from_seq;
  to_seq = if ltb merged.to_seq gap.to_seq then gap.to_seq else merged.to_seq;
}

unfoldable pub coalesce_gap_notifications : GapNotification → List GapNotification → Coalesced
coalesce_gap_notifications first [] = record { merged = first; overflow = none; left = [] }
coalesce_gap_notifications first (gap ∷ queue) =
    let rest = coalesce_gap_notifications (widen first gap) queue in
    if gap.channel == first.channel
    then rest
    else record { merged = first; overflow = some gap; left = queue }

-- The notification that coalescing has taken goes back.
unfoldable pub requeue : ServerConfig → Option GapNotification → Client → Client
unfolding notify_gap
requeue config none c = c
requeue config (some lost) c = notify_gap config lost c

-- The case of the write loop for a gap notification.
unfoldable pub forward_gap : ServerConfig → Client → Client
unfolding coalesce_gap_notifications requeue
forward_gap config c = elim c.gap_chan [
  | [] ↦ c
  | gap ∷ queue ↦
      let taken = coalesce_gap_notifications gap queue in
      let c1 = requeue config taken.overflow (record c { gap_chan = taken.left }) in
      elim (try_send config.client_send_buffer_size (gap_msg taken.merged) c1.send) [
        | none ↦ record c1 { gaps_dropped = c1.gaps_dropped + 1 }
        | some sent ↦ record c1 { send = sent }
      ]
]
