-- ===== src/Standing.antt =====
-- The host's counters of connected and of bandwidth-limited peers: a peer's own part of them, and
-- what a function has to keep. The modules below prove it of the functions.
pub mod Frames
pub mod Data
pub mod Moves
pub mod Commands
pub mod Totals
pub mod Connect
pub mod Loop
pub mod Datagram
pub mod Sending
pub mod Filling
pub mod Rounds
pub mod Disconnects
pub mod Hosts
pub mod Services
use enet_rs.Prelude.{ℕ, ◌+◌, ◌<◌, ◌≡◌, Bool, ◌==◌, if◌then◌else◌}
use enet_rs.State.{PeerState, Conn, is_connected}

-- What of a connection the counters depend on.
pub record Standing : Type 0 where
  pub connected_peers : ℕ
  pub bandwidth_limited_peers : ℕ
  pub state : PeerState
  pub incoming_bandwidth : ℕ

unfoldable pub standing : Conn → Standing
standing c = record {
  connected_peers = c.host.connected_peers;
  bandwidth_limited_peers = c.host.bandwidth_limited_peers;
  state = c.peer.state;
  incoming_bandwidth = c.peer.incoming_bandwidth;
}

-- One peer's part of the counters.
abbrev pub connected_part : PeerState → ℕ
connected_part s = if is_connected s then 1 else 0

abbrev pub limited_part : PeerState → ℕ → ℕ
limited_part s bandwidth = if is_connected s then (if bandwidth == 0 then 0 else 1) else 0

-- The counters are what the other peers (k and j of them) and this one make up. No more peers than a
-- host can have are counted.
pub record IsBalanced (k j : ℕ) (s : Standing) : Type 0 where
  pub connected : s.connected_peers ≡ k + connected_part s.state
  pub limited : s.bandwidth_limited_peers ≡ j + limited_part s.state s.incoming_bandwidth
  pub few_connected : k < 4096
  pub few_limited : j < 4096

abbrev pub Balanced : ℕ → ℕ → Conn → Type 0
Balanced k j c = IsBalanced k j (standing c)
