-- ===== src/Handle/Guards.antt =====
-- Guards on the peer's state in the handlers of original/protocol.c.
use enet_rs.Prelude.{ℕ, ◌≡◌, refl, Bool, true, false, Option, List, arith}
use enet_rs.Protocol.{
  Protocol, Body, acknowledge, connect, verify_connect, disconnect, ping, send_reliable,
  send_unreliable, send_fragment, send_unsequenced, bandwidth_limit, throttle_configure,
  send_unreliable_fragment,
}
use enet_rs.State.{Conn, failure, is_connected}
use enet_rs.Handle.Notify.{Event}
use enet_rs.Handle.Control.{handle_ping, handle_bandwidth_limit, handle_throttle_configure}
use enet_rs.Handle.Receive.{
  is_receivable, receive_data, handle_send_reliable, handle_send_unreliable,
  handle_send_unsequenced,
}
use enet_rs.Handle.Fragments.{handle_send_fragment, handle_send_unreliable_fragment}
use enet_rs.Handle.Commands.{keep_event, handle_command}

-- The commands that only a connected peer may send: all but those of the handshake, acknowledgements
-- and DISCONNECT.
abbrev pub needs_connection : Body → Bool
needs_connection (acknowledge _ _) = false
needs_connection (connect _) = false
needs_connection (verify_connect _) = false
needs_connection (disconnect _) = false
needs_connection _ = true

not_receivable :
    (m : Protocol) (c : Conn) → is_connected c.peer.state ≡ false → is_receivable m c ≡ false
not_receivable m c h = ground arith

receive_data_unconnected :
    (event : Option Event) (m : Protocol) (len : ℕ) (payload : List ℕ) (flags : ℕ) (c : Conn)
    → is_connected c.peer.state ≡ false
    → keep_event event (receive_data m payload len flags c)
      ≡ record { conn = c; event = event; status = failure }
receive_data_unconnected event m len payload flags c h = rw (not_receivable m c h) refl

-- A command with data or a fragment, a PING, a BANDWIDTH_LIMIT or a THROTTLE_CONFIGURE from a peer
-- that is not connected fails, whatever its contents, and changes neither the peer nor its host nor
-- the event.
pub handle_command_unconnected :
    (event : Option Event) (m : Protocol) (body : Body) (payload : List ℕ) (c : Conn)
    → needs_connection body ≡ true
    → is_connected c.peer.state ≡ false
    → handle_command event m body payload c ≡ record { conn = c; event = event; status = failure }
unfolding handle_command handle_ping handle_bandwidth_limit handle_throttle_configure
    handle_send_reliable handle_send_unreliable handle_send_unsequenced handle_send_fragment
    handle_send_unreliable_fragment
handle_command_unconnected event m (acknowledge n t) payload c b h = absurd (ground arith)
handle_command_unconnected event m (connect k) payload c b h = absurd (ground arith)
handle_command_unconnected event m (verify_connect k) payload c b h = absurd (ground arith)
handle_command_unconnected event m (disconnect k) payload c b h = absurd (ground arith)
handle_command_unconnected event m ping payload c b h = rw h refl
handle_command_unconnected event m (send_reliable l) payload c b h =
    receive_data_unconnected event m l payload 1 c h
handle_command_unconnected event m (send_unreliable n l) payload c b h =
    receive_data_unconnected event m l payload 0 c h
handle_command_unconnected event m (send_fragment f) payload c b h = rw (not_receivable m c h) refl
handle_command_unconnected event m (send_unsequenced g l) payload c b h =
    rw (not_receivable m c h) refl
handle_command_unconnected event m (bandwidth_limit i o) payload c b h = rw h refl
handle_command_unconnected event m (throttle_configure i a d) payload c b h = rw h refl
handle_command_unconnected event m (send_unreliable_fragment f) payload c b h =
    rw (not_receivable m c h) refl
