-- ===== src/Broadcast/Events.antt =====
-- What a client goes through, and what it is told of the messages that it was to get.
use sukko.Common.{
  ℕ, Bool, false, ◌&&◌, ◌||◌, List, [], ◌∷◌, if◌then◌else◌, leb, ◌==◌, nat_eq, list_eq,
}
use sukko.Broadcast.{
  BroadcastEnvelope, GapNotification, OutgoingMsg, broadcast_msg, gap_msg, Client, ServerConfig,
  send_to, handle_send_msg, forward_gap,
}

abbrev pub covers : ℕ → GapNotification → Bool
covers seq gap = leb gap.from_seq seq && leb seq gap.to_seq

abbrev pub tells : ℕ → OutgoingMsg → Bool
tells seq (broadcast_msg envelope other) = other == seq
tells seq (gap_msg gap) = covers seq gap

unfoldable pub any_msg : ℕ → List OutgoingMsg → Bool
any_msg seq [] = false
any_msg seq (msg ∷ msgs) = tells seq msg || any_msg seq msgs

unfoldable pub any_gap : ℕ → List GapNotification → Bool
any_gap seq [] = false
any_gap seq (gap ∷ gaps) = covers seq gap || any_gap seq gaps

-- The client has got the message with this number or a notification that covers it, or one of them is
-- on its way.
abbrev pub accounted : ℕ → Client → Bool
accounted seq c = any_msg seq c.written || any_msg seq c.send || any_gap seq c.gap_chan

-- What a client goes through: a broadcast to it, or a turn of its write loop.
pub data Event : Type 0 where
  sending : BroadcastEnvelope → Event
  writing : Bool → Event
  forwarding : Event

abbrev pub step : ServerConfig → Event → Client → Client
step config (sending envelope) c = send_to config envelope c
step config (writing sends) c = if c.loop_done then c else handle_send_msg sends c
step config forwarding c = if c.loop_done then c else forward_gap config c

abbrev pub run_events : ServerConfig → List Event → Client → Client
run_events config [] c = c
run_events config (event ∷ events) c = run_events config events (step config event c)
