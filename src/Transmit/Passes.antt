-- ===== src/Transmit/Passes.antt =====
-- The loops over the peers, of original/protocol.c: `enet_protocol_send_outgoing_commands` and
-- `enet_host_flush`.
use enet_rs.Prelude.{
  ℕ, zero, suc, ◌+◌, Bool, true, false, not, ◌&&◌, ◌||◌, Option, none, if◌then◌else◌,
}
use enet_rs.State.{Peer, disconnected, zombie, state_is}
use enet_rs.World.{World, get_peer, focus, put_back}
use enet_rs.Handle.Notify.{Event}
use enet_rs.Handle.Datagram.{Callbacks}
use enet_rs.Transmit.Datagram.{Network}
use enet_rs.Transmit.Turn.{Turn, Outcome, going_on, send_turn}

-- The state of the loops. `again` is whether continueSending asks for a further pass.
pub record Passing : Type 0 where
  pub world : World
  pub event : Option Event
  pub network : Network
  pub outcome : Outcome
  pub again : Bool

-- The peer has no turn; `later` is sendPass > 0.
unfoldable pub is_passed_over : Bool → Peer → Bool
is_passed_over later p =
    state_is p.state disconnected || state_is p.state zombie || later && not p.continue_sending

abbrev pub goes_on : Outcome → Bool
goes_on going_on = true
goes_on _ = false

-- The world after the turn of a peer.
unfoldable pub after_turn : ℕ → Passing → Turn → Passing
after_turn id s t = record {
  world = put_back s.world id t.conn;
  event = t.event;
  network = t.network;
  outcome = t.outcome;
  again = s.again || t.conn.peer.continue_sending;
}

unfoldable pub serve_peer : Callbacks → Bool → Bool → ℕ → Passing → Passing
serve_peer cb check later id s =
    if is_passed_over later (get_peer s.world id)
    then s
    else after_turn id s (send_turn cb check s.event s.network (focus s.world id))

-- A pass: `left` peers from `id` on.
unfoldable pub send_pass : Callbacks → Bool → Bool → ℕ → ℕ → Passing → Passing
send_pass cb check later zero id s = s
send_pass cb check later (suc left) id s =
    let s' = serve_peer cb check later id s in
    let rest = send_pass cb check later left (id + 1) s' in if goes_on s'.outcome then rest else s'

-- The passes. The fuel bounds their number; a pass that asks for a further one when there is no fuel
-- left ends with `again`.
unfoldable pub send_passes : ℕ → Callbacks → Bool → Bool → Passing → Passing
send_passes zero cb check later s = s
send_passes (suc fuel) cb check later s =
    let s' = send_pass cb check later s.world.host.peer_count 0 (record s { again = false }) in
    let rest = send_passes fuel cb check true s' in
    if goes_on s'.outcome && s'.again then rest else s'

-- `enet_protocol_send_outgoing_commands`.
unfoldable pub send_outgoing_commands :
    ℕ → Callbacks → Bool → Option Event → Network → World → Passing
send_outgoing_commands fuel cb check event n w =
    send_passes fuel cb check false
      (record { world = w; event = event; network = n; outcome = going_on; again = true })

-- `enet_host_flush`; `now` is what the clock says.
unfoldable pub host_flush : ℕ → Callbacks → ℕ → Network → World → Passing
host_flush fuel cb now n w =
    send_outgoing_commands fuel cb false none n
      (record w { host = record (w.host) { service_time = now } })
