-- ===== src/Transmit/Disconnect.antt =====
-- Disconnecting, of original/peer.c: `enet_peer_disconnect_now`, `enet_peer_disconnect` and
-- `enet_peer_disconnect_later`. A peer is given by its place in the array of its host; the flush on the
-- way sends for all peers of the host.
use enet_rs.Prelude.{ℕ, false, ◌&&◌, ◌||◌, if◌then◌else◌}
use enet_rs.State.{disconnect_later, disconnected, disconnecting, zombie, is_connected, state_is}
use enet_rs.World.{World, focus, put_back}
use enet_rs.Peer.Outgoing.{has_outgoing_commands}
use enet_rs.Peer.Reset.{peer_reset}
use enet_rs.Peer.Disconnect.{tell_leaving, is_leaving, disconnect_connected}
use enet_rs.Handle.Datagram.{Callbacks}
use enet_rs.Transmit.Datagram.{Network}
use enet_rs.Transmit.Passes.{host_flush}

-- The user's callbacks, what the clock says in `enet_host_flush`, and the bound on its passes.
pub record Flush : Type 0 where
  pub callbacks : Callbacks
  pub now : ℕ
  pub fuel : ℕ

-- A peer is reset, once the host has sent an unsequenced DISCONNECT to it.
unfoldable pub flush_and_reset : Flush → ℕ → ℕ → Network → World → World × Network
flush_and_reset f id code n w =
    let told = put_back w id (tell_leaving false code (focus w id)) in
    let s = host_flush f.fuel f.callbacks f.now n told in
    (put_back s.world id (peer_reset (focus s.world id)), s.network)

-- `enet_peer_disconnect_now`.
unfoldable pub peer_disconnect_now : Flush → ℕ → ℕ → Network → World → World × Network
peer_disconnect_now f id code n w =
    let c = focus w id in
    if state_is c.peer.state disconnected
    then (w, n)
    else if state_is c.peer.state zombie || state_is c.peer.state disconnecting
    then (put_back w id (peer_reset c), n)
    else flush_and_reset f id code n w

-- `enet_peer_disconnect`.
unfoldable pub peer_disconnect : Flush → ℕ → ℕ → Network → World → World × Network
peer_disconnect f id code n w =
    let c = focus w id in
    if is_leaving c.peer.state
    then (w, n)
    else if is_connected c.peer.state
    then (put_back w id (disconnect_connected code c), n)
    else flush_and_reset f id code n w

-- `enet_peer_disconnect_later`.
unfoldable pub peer_disconnect_later : Flush → ℕ → ℕ → Network → World → World × Network
peer_disconnect_later f id code n w =
    let c = focus w id in
    if is_connected c.peer.state && has_outgoing_commands c.peer
    then (
      put_back w id
          (record c { peer = record (c.peer) { state = disconnect_later; event_data = code } }),
      n,
    )
    else peer_disconnect f id code n w
