-- ===== src/Standing/Disconnects.antt =====
-- Disconnecting, of original/peer.c, keeps the host's counters, with the flush of all peers on the way.
use enet_rs.Prelude.{
  ℕ, Bool, true, false, ◌&&◌, ◌||◌, if◌then◌else◌, Bool-cases, inl, inr, refl, ◌<◌, length,
}
use enet_rs.State.{disconnected, zombie, disconnecting, is_connected, state_is}
use enet_rs.World.{World, get_peer, focus, put_back}
use enet_rs.Peer.Outgoing.{has_outgoing_commands}
use enet_rs.Peer.Reset.{peer_reset}
use enet_rs.Peer.Disconnect.{tell_leaving, is_leaving, disconnect_connected}
use enet_rs.Transmit.Datagram.{Network}
use enet_rs.Transmit.Passes.{host_flush}
use enet_rs.Transmit.Disconnect.{
  Flush, flush_and_reset, peer_disconnect_now, peer_disconnect, peer_disconnect_later,
}
use enet_rs.Standing.Moves.{
  tell_leaving-Balanced, disconnect_connected-Balanced, connected_states-Balanced,
}
use enet_rs.Standing.Totals.{IsCounted, put_back-IsCounted}
use enet_rs.Standing.Rounds.{send_outgoing_commands-IsCounted}
use enet_rs.Standing.Hosts.{reset_at-IsCounted}

IsCounted-if :
    (t : Bool) (a b : World × Network)
    → IsCounted a.0
    → IsCounted b.0
    → IsCounted (if t then a else b).0
IsCounted-if true a b p q = p
IsCounted-if false a b p q = q

host_flush-IsCounted :
    (f : Flush) (n : Network) (w : World)
    → IsCounted w
    → IsCounted (host_flush f.fuel f.callbacks f.now n w).world
unfolding host_flush
host_flush-IsCounted f n w k =
    send_outgoing_commands-IsCounted f.fuel f.callbacks false _ n _
      (record { connected = k.connected; limited = k.limited; few = k.few })

flush_and_reset-IsCounted :
    (f : Flush) (id code : ℕ) (n : Network) (w : World)
    → IsCounted w
    → id < length w.peers
    → IsCounted (flush_and_reset f id code n w).0
unfolding flush_and_reset
flush_and_reset-IsCounted f id code n w k h =
    let told = put_back w id (tell_leaving false code (focus w id)) in
    let s = host_flush f.fuel f.callbacks f.now n told in
    reset_at-IsCounted s.world id (get_peer s.world id) refl refl (
      host_flush-IsCounted f n told (
        put_back-IsCounted w id _ h (λ a b m. tell_leaving-Balanced a b false code (focus w id) m)
          k))

-- Where a host's counters are the numbers of its connected peers and of those with a limited incoming
-- bandwidth, and it has fewer than 4096 peers, this still holds after `enet_peer_disconnect_now` of any
-- of its peers, with the flush of all its peers, whatever the network and the clock do.
pub peer_disconnect_now-IsCounted :
    (f : Flush) (id code : ℕ) (n : Network) (w : World)
    → IsCounted w
    → id < length w.peers
    → IsCounted (peer_disconnect_now f id code n w).0
unfolding peer_disconnect_now
peer_disconnect_now-IsCounted f id code n w k h =
    IsCounted-if (state_is (get_peer w id).state disconnected) (w, n) _ k
      (IsCounted-if
        (state_is (get_peer w id).state zombie || state_is (get_peer w id).state disconnecting)
        (put_back w id (peer_reset (focus w id)), n) (flush_and_reset f id code n w)
        (reset_at-IsCounted w id (get_peer w id) refl refl k)
        (flush_and_reset-IsCounted f id code n w k h))

peer_disconnect-IsCounted :
    (f : Flush) (id code : ℕ) (n : Network) (w : World)
    → IsCounted w
    → id < length w.peers
    → IsCounted (peer_disconnect f id code n w).0
unfolding peer_disconnect
peer_disconnect-IsCounted f id code n w k h =
    IsCounted-if (is_leaving (get_peer w id).state) (w, n) _ k
      (IsCounted-if (is_connected (get_peer w id).state)
        (put_back w id (disconnect_connected code (focus w id)), n) (flush_and_reset f id code n w)
        (put_back-IsCounted w id _ h
          (λ a b m. disconnect_connected-Balanced a b code (focus w id) m) k)
        (flush_and_reset-IsCounted f id code n w k h))

-- Where a host's counters are the numbers of its connected peers and of those with a limited incoming
-- bandwidth, and it has fewer than 4096 peers, this still holds after `enet_peer_disconnect_later` of
-- any of its peers, in every state of it: where it is postponed, where the peer is told and waits for
-- the acknowledgement, and where all peers of the host are flushed and the peer is reset.
pub peer_disconnect_later-IsCounted :
    (f : Flush) (id code : ℕ) (n : Network) (w : World)
    → IsCounted w
    → id < length w.peers
    → IsCounted (peer_disconnect_later f id code n w).0
unfolding peer_disconnect_later
peer_disconnect_later-IsCounted f id code n w k h =
    elim (Bool-cases (is_connected (get_peer w id).state)) [
      | inl e ↦
          IsCounted-if (is_connected (get_peer w id).state && has_outgoing_commands (get_peer w id))
            _ _
            (put_back-IsCounted w id _ h
              (λ a b m. connected_states-Balanced a b code (focus w id) e m) k)
            (peer_disconnect-IsCounted f id code n w k h)
      | inr e ↦ rw e (peer_disconnect-IsCounted f id code n w k h)
    ]
