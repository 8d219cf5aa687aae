-- ===== src/Handle/Connect/Bounds.antt =====
-- What the handshake of original/protocol.c agrees on: `enet_protocol_handle_connect`.
use enet_rs.Prelude.{ℕ, ◌<◌, ◌≤◌, ◌≢◌, arith}
use enet_rs.Protocol.{Connect, minimum_mtu, maximum_mtu, minimum_window_size, maximum_window_size}
use enet_rs.State.{Host, Peer}
use enet_rs.Handle.Control.{clamp_window, negotiate_window}
use enet_rs.Handle.Verify.{clamp_mtu}
use enet_rs.Handle.Connect.{next_session, set_up_peer}

next_session-bounds :
    (proposed own : ℕ) → (next_session proposed own < 4) × (next_session proposed own ≢ own)
unfolding next_session
next_session-bounds proposed own = (ground arith, ground arith)

clamp_window-bounds :
    (w : ℕ) → (minimum_window_size ≤ clamp_window w) × (clamp_window w ≤ maximum_window_size)
unfolding clamp_window
clamp_window-bounds w = (ground arith, ground arith)

clamp_mtu-bounds : (m : ℕ) → (minimum_mtu ≤ clamp_mtu m) × (clamp_mtu m ≤ maximum_mtu)
unfolding clamp_mtu
clamp_mtu-bounds m = (ground arith, ground arith)

-- Whatever a CONNECT proposes, if the host's MTU is not below the protocol's minimum, then the peer set
-- up for it has an MTU in the protocol's range that is at most the host's, a window size in the
-- protocol's range, and two session ids of two bits, each different from the one that the peer had
-- before for that direction (also from the 0xff of a peer that was never connected).
pub set_up_peer_bounds :
    (h : Host) (k : Connect) (channel_count : ℕ) (p : Peer)
    → minimum_mtu ≤ h.mtu
    → (minimum_mtu ≤ (set_up_peer h k channel_count p).mtu)
      × ((set_up_peer h k channel_count p).mtu ≤ h.mtu)
      × ((set_up_peer h k channel_count p).mtu ≤ maximum_mtu)
      × (minimum_window_size ≤ (set_up_peer h k channel_count p).window_size)
      × ((set_up_peer h k channel_count p).window_size ≤ maximum_window_size)
      × ((set_up_peer h k channel_count p).outgoing_session_id < 4)
      × ((set_up_peer h k channel_count p).outgoing_session_id ≢ p.outgoing_session_id)
      × ((set_up_peer h k channel_count p).incoming_session_id < 4)
      × ((set_up_peer h k channel_count p).incoming_session_id ≢ p.incoming_session_id)
unfolding set_up_peer negotiate_window
set_up_peer_bounds h k n p m =
    let mtu = clamp_mtu-bounds k.mtu in
    let (lo, hi) = clamp_window-bounds _ in
    let (o1, o2) = next_session-bounds k.incoming_session_id p.outgoing_session_id in
    let (i1, i2) = next_session-bounds k.outgoing_session_id p.incoming_session_id in
    (ground arith, ground arith, ground arith, lo, hi, o1, o2, i1, i2)
