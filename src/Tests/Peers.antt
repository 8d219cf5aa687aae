-- ===== src/Tests/Peers.antt =====
-- The theorems on the state of single peers and channels (original/peer.c and original/protocol.c),
-- at samples.
use enet_rs.Prelude.{
  ◌-◌, min, ℕ, ◌+◌, ◌*◌, ◌<◌, ◌≤◌, ◌≡◌, ◌≢◌, ◌⊎◌, refl, true, false, none, List, [], ◌∷◌, get_or,
  replicate, get_or-replicate, zero, suc, ltb, test_bit, test_bit-zero, sym, ap, ◌∙◌, arith,
}
use enet_rs.Protocol.{
  Connect, send_reliable, minimum_mtu, maximum_mtu, minimum_window_size, maximum_window_size,
}
use enet_rs.State.{Channel, Peer, Conn, failure}
use enet_rs.World.{zero_peer}
use enet_rs.Peer.Outgoing.{fresh_channel}
use enet_rs.Peer.Throttle.{throttle}
use enet_rs.Peer.Throttle.Bounds.{throttle_bounds}
use enet_rs.Peer.Dispatch.{mark_dispatch, is_queued}
use enet_rs.Peer.Reset.{peer_reset}
use enet_rs.Peer.Reset.Queue.{peer_reset_keeps_dispatch_queue}
use enet_rs.Handle.Acknowledge.{leave_window}
use enet_rs.Handle.Acknowledge.Windows.{HasWindows, leave_window-HasWindows}
use enet_rs.Transmit.Outgoing.{enter_window, window_index}
use enet_rs.Transmit.Outgoing.Windows.{enter_window-HasWindows}
use enet_rs.Tests.Sending.{some_outgoing}
use enet_rs.Handle.Connect.{set_up_peer}
use enet_rs.Handle.Connect.Bounds.{set_up_peer_bounds}
use enet_rs.Handle.Commands.{handle_command}
use enet_rs.Handle.Guards.{handle_command_unconnected}
use enet_rs.Tests.Samples.{some_host, some_peer, free_conn, command_of}

-- A channel with one command in flight, in the window of number 4096.
abbrev busy_channel : Channel
busy_channel = record fresh_channel {
  used_reliable_windows = 2;
  reliable_windows = 0 ∷ 1 ∷ replicate 14 0;
}

-- The windows from the second on, of which none is in use.
replicate_zero : (zeros : List ℕ) (n w : ℕ) → zeros ≡ replicate n 0 → get_or zeros w 0 ≡ 0
replicate_zero zeros n w e = ap (λ zs. get_or zs w 0) e ∙ get_or-replicate n w 0

busy_channel-HasWindows : HasWindows busy_channel
unfolding test_bit
busy_channel-HasWindows = record { all_there = refl; bits = bits }
  where
    bits :
        (w : ℕ)
        → test_bit busy_channel.used_reliable_windows w
          ≡ ltb 0 (get_or busy_channel.reliable_windows w 0)
    bits zero = refl
    bits (suc zero) = refl
    bits (suc (suc w)) =
        test_bit-zero w ∙ sym (ap (ltb 0) (replicate_zero (replicate 14 0) 14 w refl))

leave_window-HasWindows_example : HasWindows (leave_window 4100 busy_channel)
leave_window-HasWindows_example =
    leave_window-HasWindows 4100 busy_channel (omega arith) busy_channel-HasWindows

few_in_flight : get_or busy_channel.reliable_windows (window_index some_outgoing) 0 < 65535
few_in_flight = omega arith

enter_window-HasWindows_example :
    HasWindows (enter_window (window_index some_outgoing) busy_channel)
enter_window-HasWindows_example =
    enter_window-HasWindows some_outgoing busy_channel (omega arith) few_in_flight
      busy_channel-HasWindows

handle_command_unconnected_example :
    handle_command none (command_of 1 (send_reliable 1)) (send_reliable 1) (7 ∷ []) free_conn
    ≡ record { conn = free_conn; event = none; status = failure }
handle_command_unconnected_example =
    handle_command_unconnected none (command_of 1 (send_reliable 1)) (send_reliable 1) (7 ∷ [])
      free_conn refl refl

abbrev some_connect : Connect
some_connect = record {
  outgoing_peer_id = 3;
  incoming_session_id = 0xff;
  outgoing_session_id = 0xff;
  mtu = 9000;
  window_size = 100;
  channel_count = 2;
  incoming_bandwidth = 70000;
  outgoing_bandwidth = 0;
  packet_throttle_interval = 5000;
  packet_throttle_acceleration = 2;
  packet_throttle_deceleration = 2;
  connect_id = 77;
  connect_data = 0;
}

abbrev set_up : Peer
set_up = set_up_peer some_host some_connect 2 zero_peer

set_up_peer_bounds_example :
    (minimum_mtu ≤ set_up.mtu)
    × (set_up.mtu ≤ some_host.mtu)
    × (set_up.mtu ≤ maximum_mtu)
    × (minimum_window_size ≤ set_up.window_size)
    × (set_up.window_size ≤ maximum_window_size)
    × (set_up.outgoing_session_id < 4)
    × (set_up.outgoing_session_id ≢ 0)
    × (set_up.incoming_session_id < 4)
    × (set_up.incoming_session_id ≢ 0)
set_up_peer_bounds_example = set_up_peer_bounds some_host some_connect 2 zero_peer (omega arith)

throttle_bounds_example :
    ((throttle 900 some_peer).0.packet_throttle ≤ 32)
    × ((throttle 900 some_peer).0.packet_throttle_limit ≡ 32)
    × (((500 ≤ 10) × ((throttle 900 some_peer).0.packet_throttle ≡ 32))
        ⊎ ((10 < 500)
            × (((900 ≤ 500)
                  × ((throttle 900 some_peer).0.packet_throttle
                      ≡ min 32 (20 + some_peer.packet_throttle_acceleration)))
                ⊎ (((500 < 900)
                      × (900 ≤ 500 + 2 * 10)
                      × ((throttle 900 some_peer).0.packet_throttle ≡ 20))
                    ⊎ ((500 + 2 * 10 < 900)
                        × ((throttle 900 some_peer).0.packet_throttle
                            ≡ 20 - some_peer.packet_throttle_deceleration))))))
throttle_bounds_example = throttle_bounds 900 some_peer (omega arith) (omega arith) (omega arith)

-- A peer that stands in the dispatch queue, between two others.
abbrev queued_conn : Conn
queued_conn = record {
  host = record some_host { dispatch_queue = 2 ∷ 0 ∷ 1 ∷ [] };
  peer = record some_peer { needs_dispatch = true };
}

not_before : is_queued 0 (2 ∷ []) ≡ false
unfolding is_queued
not_before = refl

peer_reset_keeps_dispatch_queue_example :
    ((peer_reset queued_conn).host.dispatch_queue ≡ 2 ∷ 0 ∷ 1 ∷ [])
    × ((mark_dispatch (peer_reset queued_conn)).host.dispatch_tangled ≡ true)
    × ((mark_dispatch (peer_reset queued_conn)).host.dispatch_queue ≡ 2 ∷ 0 ∷ [])
peer_reset_keeps_dispatch_queue_example =
    peer_reset_keeps_dispatch_queue queued_conn (2 ∷ []) (1 ∷ []) refl not_before
