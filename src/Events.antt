-- ===== src/Events.antt =====
-- Events for the user, of original/protocol.c: `enet_protocol_dispatch_incoming_commands` and
-- `enet_host_check_events`.
pub mod News
use enet_rs.Prelude.{
  ℕ, Bool, true, false, Option, none, some, List, [], ◌∷◌, ◌++◌, is_empty, if◌then◌else◌,
}
use enet_rs.State.{
  PeerState, Conn, disconnected, connecting, acknowledging_connect, connection_pending,
  connection_succeeded, connected, disconnect_later, disconnecting, acknowledging_disconnect,
  zombie,
}
use enet_rs.World.{World, focus, put_back}
use enet_rs.Peer.Dispatch.{Received, receive, insert_peer}
use enet_rs.Peer.Reset.{peer_reset}
use enet_rs.Handle.Notify.{
  Event, no_event, connect_event, disconnect_event, receive_event, change_state, set_recalculate,
}

-- A peer at the front of the queue gives an event, or none.
pub record Dispatched : Type 0 where
  pub conn : Conn
  pub event : Event
  pub found : Bool

abbrev pub no_dispatch : Event → Conn → Dispatched
no_dispatch e c = record { conn = c; event = e; found = false }

-- needsDispatch is cleared when the peer leaves the queue.
unfoldable pub leave_queue : Conn → Conn
leave_queue c = record c { peer = record (c.peer) { needs_dispatch = false } }

unfoldable pub dispatch_connect : Event → Conn → Dispatched
dispatch_connect e c = record {
  conn = change_state connected c;
  event = record e {
    type = connect_event;
    peer = some c.peer.incoming_peer_id;
    code = c.peer.event_data;
  };
  found = true;
}

unfoldable pub dispatch_disconnect : Event → Conn → Dispatched
dispatch_disconnect e c = record {
  conn = peer_reset (set_recalculate c);
  event = record e {
    type = disconnect_event;
    peer = some c.peer.incoming_peer_id;
    code = c.peer.event_data;
  };
  found = true;
}

-- The peer queues up again, at the end.
unfoldable pub requeue : Conn → Conn
requeue c = if is_empty c.peer.dispatched_commands then c else record {
  host = insert_peer c.peer.incoming_peer_id c.host;
  peer = record (c.peer) { needs_dispatch = true };
}

abbrev pub after_receive : Event → Conn × Received → Dispatched
after_receive e (c, none) = record { conn = c; event = record e { packet = none }; found = false }
after_receive e (c, some (id, packet)) = record {
  conn = requeue c;
  event = record e {
    type = receive_event;
    peer = some c.peer.incoming_peer_id;
    channel_id = id;
    packet = some packet;
  };
  found = true;
}

unfoldable pub dispatch_receive : Event → Conn → Dispatched
dispatch_receive e c =
    if is_empty c.peer.dispatched_commands then no_dispatch e c else after_receive e (receive c)

-- The switch on the state of the peer.
unfoldable pub dispatch_for : PeerState → Event → Conn → Dispatched
dispatch_for connection_pending e c = dispatch_connect e c
dispatch_for connection_succeeded e c = dispatch_connect e c
dispatch_for zombie e c = dispatch_disconnect e c
dispatch_for connected e c = dispatch_receive e c
dispatch_for disconnected e c = no_dispatch e c
dispatch_for connecting e c = no_dispatch e c
dispatch_for acknowledging_connect e c = no_dispatch e c
dispatch_for disconnect_later e c = no_dispatch e c
dispatch_for disconnecting e c = no_dispatch e c
dispatch_for acknowledging_disconnect e c = no_dispatch e c

-- The world, the event and whether there is one.
pub record Checkup : Type 0 where
  pub world : World
  pub event : Event
  pub found : Bool

-- A round of the loop: the peer `id` was at the front of the queue, `ids` are behind it.
unfoldable pub dispatch_front : ℕ → List ℕ → Event → World → Checkup
dispatch_front id ids e w =
    let w' : World = record w { host = record (w.host) { dispatch_queue = ids } } in
    let c = leave_queue (focus w' id) in
    let d = dispatch_for c.peer.state e c in
    record { world = put_back w' id d.conn; event = d.event; found = d.found }

-- The loop, on a queue whose links are a ring. Only a round that ends it adds to the queue.
unfoldable pub dispatch_events : List ℕ → Event → World → Checkup
dispatch_events [] e w = record { world = w; event = e; found = false }
dispatch_events (id ∷ ids) e w =
    let k = dispatch_front id ids e w in
    let rest = dispatch_events ids k.event k.world in if k.found then k else rest

-- `enet_protocol_dispatch_incoming_commands`.
unfoldable pub dispatch_incoming_commands : Event → World → Checkup
dispatch_incoming_commands e w = dispatch_events w.host.dispatch_queue e w

-- event -> type = ENET_EVENT_TYPE_NONE, event -> peer = NULL, event -> packet = NULL
unfoldable pub clear_event : Event → Event
clear_event e = record e { type = no_event; peer = none; packet = none }

-- What `enet_host_check_events` does; it returns -1 for a NULL event, 1 for `found` and 0 otherwise.
unfoldable pub check_events : Option Event → World → Option Checkup
check_events none w = none
check_events (some e) w = some (dispatch_incoming_commands (clear_event e) w)
