-- ===== src/Handle/Notify.antt =====
-- Changes of state and events, of original/protocol.c: `enet_protocol_change_state`,
-- `enet_protocol_dispatch_state`, `enet_protocol_notify_connect` and
-- `enet_protocol_notify_disconnect`.
use enet_rs.Prelude.{ℕ, Bool, true, not, ◌&&◌, Option, none, some, ltb, leb, if◌then◌else◌}
use enet_rs.State.{
  PeerState, Conn, connecting, connection_pending, connection_succeeded, connected, zombie,
  is_connected, state_is, state_number,
}
use enet_rs.Peer.Dispatch.{mark_dispatch}
use enet_rs.Peer.Reset.{on_connect, on_disconnect, peer_reset}

-- `ENetEventType`.
pub data EventType : Type 0 where
  no_event connect_event disconnect_event receive_event : EventType

-- `ENetEvent`; the peer is given by its incoming id. `none` for an event is a NULL `event`.
pub record Event : Type 0 where
  pub type : EventType
  pub peer : Option ℕ
  pub channel_id : ℕ
  pub code : ℕ
  pub packet : Option ℕ

-- `enet_protocol_change_state`.
unfoldable pub change_state : PeerState → Conn → Conn
change_state s c = record {
  host = if is_connected s then on_connect c.peer c.host else on_disconnect c.peer c.host;
  peer = record (c.peer) { state = s };
}

-- `enet_protocol_dispatch_state`.
unfoldable pub dispatch_state : PeerState → Conn → Conn
dispatch_state s c = mark_dispatch (change_state s c)

unfoldable pub set_recalculate : Conn → Conn
set_recalculate c = record c { host = record (c.host) { recalculate_bandwidth_limits = true } }

-- `enet_protocol_notify_connect`.
unfoldable pub notify_connect : Option Event → Conn → Conn × Option Event
notify_connect none c = (
  dispatch_state
      (if state_is c.peer.state connecting then connection_succeeded else connection_pending)
      (set_recalculate c),
  none,
)
notify_connect (some e) c = (
  change_state connected (set_recalculate c),
  some (record e {
    type = connect_event;
    peer = some c.peer.incoming_peer_id;
    code = c.peer.event_data;
  }),
)

unfoldable pub recalculate_if : Bool → Conn → Conn
recalculate_if b c = if b then set_recalculate c else c

-- The states in which a disconnect is not told to the user.
abbrev pub is_unannounced : PeerState → Bool
is_unannounced s =
    not (state_is s connecting) && ltb (state_number s) (state_number connection_succeeded)

-- The two branches of `enet_protocol_notify_disconnect` that the user hears of: at once, or by the
-- dispatch queue if there is no event to fill in.
unfoldable pub tell_disconnect : Option Event → Conn → Conn × Option Event
tell_disconnect none c =
    (dispatch_state zombie (record c { peer = record (c.peer) { event_data = 0 } }), none)
tell_disconnect (some e) c = (
  peer_reset c,
  some (record e { type = disconnect_event; peer = some c.peer.incoming_peer_id; code = 0 }),
)

-- `enet_protocol_notify_disconnect`.
unfoldable pub notify_disconnect : Option Event → Conn → Conn × Option Event
notify_disconnect event c =
    if is_unannounced c.peer.state then (peer_reset c', event) else tell_disconnect event c'
  where
    c' : Conn
    c' = recalculate_if (leb (state_number connection_pending) (state_number c.peer.state)) c
