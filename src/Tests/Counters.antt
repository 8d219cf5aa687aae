-- ===== src/Tests/Counters.antt =====
-- The theorems on the host's counters and on guards (original/protocol.c), at sample datagrams.
use enet_rs.Prelude.{◌≡◌, refl, none, some, [], ◌∷◌, arith}
use enet_rs.Protocol.{command_byte, command_number, command_size, ping, bandwidth_limit}
use enet_rs.Wire.{encode, encode_body, decode, decode_body}
use enet_rs.Transmit.Datagram.{Network}
use enet_rs.Transmit.Disconnect.{Flush, peer_disconnect_now, peer_disconnect_later}
use enet_rs.Handle.Commands.{handle_command, run_commands, command_step}
use enet_rs.Handle.Control.{handle_bandwidth_limit}
use enet_rs.Handle.Datagram.{
  handle_incoming_commands, find_sender, decode_header, is_foreign, handle_plain, plain_bytes,
}
use enet_rs.Standing.{Balanced, standing}
use enet_rs.State.{connecting}
use enet_rs.World.{World, zero_peer}
use enet_rs.Standing.Disconnects.{peer_disconnect_now-IsCounted, peer_disconnect_later-IsCounted}
use enet_rs.Standing.Commands.{handle_command-Balanced}
use enet_rs.Standing.Totals.{IsCounted}
use enet_rs.Standing.Datagram.{handle_incoming_commands-IsCounted}
use enet_rs.Tests.Samples.{
  some_host, some_peer, some_world, some_conn, command_of, limit_datagram, no_callbacks,
}

pub some_world-IsCounted : IsCounted some_world
some_world-IsCounted = record { connected = refl; limited = refl; few = omega arith }

limit_datagram_counts :
    (handle_incoming_commands no_callbacks none limit_datagram
      some_world).world.host.bandwidth_limited_peers
    ≡ 1
unfolding handle_incoming_commands encode encode_body find_sender decode_header is_foreign
    handle_plain plain_bytes run_commands decode decode_body command_byte command_number
    command_size command_step handle_command handle_bandwidth_limit
limit_datagram_counts = refl

handle_incoming_commands-IsCounted_example :
    IsCounted (handle_incoming_commands no_callbacks none limit_datagram some_world).world
handle_incoming_commands-IsCounted_example =
    handle_incoming_commands-IsCounted no_callbacks none limit_datagram some_world
      some_world-IsCounted

some_conn-Balanced : Balanced 0 0 some_conn
unfolding standing
some_conn-Balanced = record {
  connected = refl;
  limited = refl;
  few_connected = omega arith;
  few_limited = omega arith;
}

handle_command-Balanced_example :
    Balanced 0 0
      (handle_command none (command_of 1 ping) (bandwidth_limit 1000 2000) [] some_conn).conn
handle_command-Balanced_example =
    handle_command-Balanced 0 0 none (command_of 1 ping) (bandwidth_limit 1000 2000) [] some_conn
      some_conn-Balanced

-- A peer that is still connecting, so that the host is flushed.
abbrev dialing_world : World
dialing_world = record {
  host = record some_host { connected_peers = 0 };
  peers = record some_peer { state = connecting } ∷ zero_peer ∷ [];
}

dialing_world-IsCounted : IsCounted dialing_world
dialing_world-IsCounted = record { connected = refl; limited = refl; few = omega arith }

abbrev some_flush : Flush
some_flush = record { callbacks = no_callbacks; now = 6000; fuel = 4 }

abbrev some_network : Network
some_network = record { sent = []; outcome = λ n. some 0 }

peer_disconnect_later-IsCounted_example :
    IsCounted (peer_disconnect_later some_flush 0 3 some_network dialing_world).0
peer_disconnect_later-IsCounted_example =
    peer_disconnect_later-IsCounted some_flush 0 3 some_network dialing_world
      dialing_world-IsCounted (omega arith)

peer_disconnect_now-IsCounted_example :
    IsCounted (peer_disconnect_now some_flush 0 3 some_network dialing_world).0
peer_disconnect_now-IsCounted_example =
    peer_disconnect_now-IsCounted some_flush 0 3 some_network dialing_world dialing_world-IsCounted
      (omega arith)
