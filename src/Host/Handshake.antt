-- ===== src/Host/Handshake.antt =====
-- Both sides of the handshake: the CONNECT of `enet_host_connect` of original/host.c, the answer of
-- `enet_protocol_handle_connect` and the check of `enet_protocol_handle_verify_connect` of
-- original/protocol.c.
use enet_rs.Prelude.{ℕ, ◌≤◌, ◌≡◌, refl, false, arith}
use enet_rs.Protocol.{
  Connect, VerifyConnect, minimum_mtu, maximum_mtu, minimum_channel_count, maximum_channel_count,
}
use enet_rs.State.{Address, Peer, Host}
use enet_rs.Handle.Connect.{set_up_peer, verify_data}
use enet_rs.Handle.Verify.{lower, clamp_mtu, is_mismatch, adopt}
use enet_rs.Host.{connecting_peer, connect_data}

-- The two ends of a connection agree.
pub record Agrees (client server : Peer) : Type 0 where
  pub connect_id : client.connect_id ≡ server.connect_id
  pub mtu : client.mtu ≡ server.mtu
  pub channel_count : client.channel_count ≡ server.channel_count
  pub to_server : client.outgoing_peer_id ≡ server.incoming_peer_id
  pub to_client : server.outgoing_peer_id ≡ client.incoming_peer_id
  pub from_server : client.incoming_session_id ≡ server.outgoing_session_id
  pub from_client : client.outgoing_session_id ≡ server.incoming_session_id

-- A host whose MTU and channel limit are in the protocol's range.
pub record IsInRange (h : Host) : Type 0 where
  pub mtu_least : minimum_mtu ≤ h.mtu
  pub mtu_most : h.mtu ≤ maximum_mtu
  pub channels_least : minimum_channel_count ≤ h.channel_limit
  pub channels_most : h.channel_limit ≤ maximum_channel_count

module _ (address : Address) (channel_count connect_id code : ℕ) (client server : Host)
    (p q : Peer) where
  -- The peer of `enet_host_connect`, its question, the peer of the server, and its answer.
  abbrev pub asking : Peer
  asking = connecting_peer address channel_count connect_id client p

  abbrev pub question : Connect
  question = connect_data code client asking

  abbrev pub answering : Peer
  answering = set_up_peer server question (lower server.channel_limit question.channel_count) q

  abbrev pub answer : VerifyConnect
  answer = verify_data server question answering

-- The channel counts and the MTUs of the two sides, as numbers.
lower-channels : (limit n : ℕ) → lower (lower limit n) n ≡ lower limit n
lower-channels limit n = ground arith

lower-mtu :
    (m n : ℕ)
    → minimum_mtu ≤ m
    → m ≤ maximum_mtu
    → minimum_mtu ≤ n
    → n ≤ maximum_mtu
    → lower (clamp_mtu (lower (clamp_mtu m) n)) m ≡ lower (clamp_mtu m) n
unfolding clamp_mtu
lower-mtu m n a b c d = ground arith

-- A connection that `enet_host_connect` asks for with 1 to 255 channels, between two hosts whose MTU and
-- channel limit are in the protocol's range, comes about: the client does not find the server's answer
-- amiss, and what it takes over from it makes the two peers agree on the connection's id, the MTU, the
-- number of channels, each other's ids, and the session ids of the two directions.
pub handshake :
    (address : Address) (channel_count connect_id code : ℕ) (client server : Host) (p q : Peer)
    → minimum_channel_count ≤ channel_count
    → channel_count ≤ maximum_channel_count
    → IsInRange client
    → IsInRange server
    → (is_mismatch
          (answer address channel_count connect_id code client server p q)
          (asking address channel_count connect_id code client server p q)
        ≡ false)
      × Agrees
          (adopt
            (answer address channel_count connect_id code client server p q)
            (asking address channel_count connect_id code client server p q))
          (answering address channel_count connect_id code client server p q)
unfolding connecting_peer set_up_peer adopt is_mismatch
handshake address channel_count connect_id code client server p q least most c s = (
  (let a = c.channels_least in let b = s.channels_least in let d = s.channels_most in ground arith),
  record {
    connect_id = refl;
    mtu = lower-mtu client.mtu server.mtu c.mtu_least c.mtu_most s.mtu_least s.mtu_most;
    channel_count = lower-channels server.channel_limit channel_count;
    to_server = refl;
    to_client = refl;
    from_server = refl;
    from_client = refl;
  },
)
