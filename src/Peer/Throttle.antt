-- ===== src/Peer/Throttle.antt =====
-- The packet throttle and the tuning of a peer, of original/peer.c: `enet_peer_throttle`,
-- `enet_peer_throttle_configure`, `enet_peer_ping`, `enet_peer_ping_interval`, `enet_peer_timeout`.
pub mod Bounds
use enet_rs.Prelude.{ℕ, ◌+◌, ◌-◌, ◌*◌, true, false, none, ltb, leb, ◌==◌, if◌then◌else◌, u32}
use enet_rs.Protocol.{Protocol, throttle_configure, ping}
use enet_rs.State.{
  Peer, Conn, connected, state_is, default_ping_interval, default_timeout_limit,
  default_timeout_minimum, default_timeout_maximum,
}
use enet_rs.Peer.Outgoing.{queue_outgoing_command}

-- What `enet_peer_throttle` returns: 1, -1 or 0.
pub data Adjustment : Type 0 where
  raised lowered unchanged : Adjustment

-- `enet_peer_throttle`.
unfoldable pub throttle : ℕ → Peer → Peer × Adjustment
throttle rtt p =
    if leb p.last_round_trip_time p.last_round_trip_time_variance
    then (record p { packet_throttle = p.packet_throttle_limit }, unchanged)
    else if leb rtt p.last_round_trip_time
    then (
      record p {
        packet_throttle =
            if ltb p.packet_throttle_limit risen then p.packet_throttle_limit else risen;
      },
      raised,
    )
    else if ltb (u32 (p.last_round_trip_time + 2 * p.last_round_trip_time_variance)) rtt
    then (
      record p {
        packet_throttle =
            if ltb p.packet_throttle_deceleration p.packet_throttle
            then p.packet_throttle - p.packet_throttle_deceleration
            else 0;
      },
      lowered,
    )
    else (p, unchanged)
  where
    risen : ℕ
    risen = u32 (p.packet_throttle + p.packet_throttle_acceleration)

-- `enet_peer_throttle_configure`.
unfoldable pub peer_throttle_configure : ℕ → ℕ → ℕ → Conn → Conn
peer_throttle_configure interval acceleration deceleration c =
    queue_outgoing_command command none 0 0 (record c {
      peer = record (c.peer) {
        packet_throttle_interval = interval;
        packet_throttle_acceleration = acceleration;
        packet_throttle_deceleration = deceleration;
      };
    })
  where
    command : Protocol
    command = record {
      flag_acknowledge = true;
      flag_unsequenced = false;
      channel_id = 0xff;
      reliable_sequence_number = 0;
      body = throttle_configure interval acceleration deceleration;
    }

-- `enet_peer_ping`.
unfoldable pub peer_ping : Conn → Conn
peer_ping c =
    if state_is c.peer.state connected then queue_outgoing_command command none 0 0 c else c
  where
    command : Protocol
    command = record {
      flag_acknowledge = true;
      flag_unsequenced = false;
      channel_id = 0xff;
      reliable_sequence_number = 0;
      body = ping;
    }

-- `enet_peer_ping_interval`.
unfoldable pub peer_ping_interval : ℕ → Peer → Peer
peer_ping_interval interval p = record p {
  ping_interval = if interval == 0 then default_ping_interval else interval;
}

-- `enet_peer_timeout`.
unfoldable pub peer_timeout : ℕ → ℕ → ℕ → Peer → Peer
peer_timeout limit minimum maximum p = record p {
  timeout_limit = if limit == 0 then default_timeout_limit else limit;
  timeout_minimum = if minimum == 0 then default_timeout_minimum else minimum;
  timeout_maximum = if maximum == 0 then default_timeout_maximum else maximum;
}
