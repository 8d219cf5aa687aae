-- ===== src/Transmit/Datagram/Length.antt =====
-- The number of bytes of the datagrams that original/protocol.c builds.
use enet_rs.Prelude.{
  ℕ, ◌+◌, ◌≤◌, ◌<◌, ◌≡◌, refl, Bool, true, false, Option, none, some, List, [], ◌∷◌, length,
  length-append, length-take, drop, ltb, ◌&&◌, if◌then◌else◌, size_sub, Bool-cases, inl, inr, arith,
}
use enet_rs.Protocol.{
  Body, Protocol, command_size, acknowledge, connect, verify_connect, disconnect, ping,
  send_reliable, send_unreliable, send_fragment, send_unsequenced, bandwidth_limit,
  throttle_configure, send_unreliable_fragment,
}
use enet_rs.Wire.{encode, encode_body, encode_fragment}
use enet_rs.Packet.{Memory, get_packet}
use enet_rs.State.{Buffer, of_command, of_packet, Peer, Conn}
use enet_rs.Handle.Datagram.{Callbacks, is_some}
use enet_rs.Transmit.Datagram.{
  buffer_bytes, payload_bytes, compress_with, finish_flags, header_bytes, sends_time, with_checksum,
  or_plain, build_datagram,
}
use enet_rs.Transmit.Outgoing.Limits.{IsWithin, buffer_length, buffers_length}

length-encode_body : (b : Body) → 4 + length (encode_body b []) ≡ command_size b
unfolding encode_body encode_fragment command_size
length-encode_body (acknowledge n t) = refl
length-encode_body (connect k) = refl
length-encode_body (verify_connect v) = refl
length-encode_body (disconnect d) = refl
length-encode_body ping = refl
length-encode_body (send_reliable n) = refl
length-encode_body (send_unreliable n k) = refl
length-encode_body (send_fragment f) = refl
length-encode_body (send_unsequenced n k) = refl
length-encode_body (bandwidth_limit a b) = refl
length-encode_body (throttle_configure a b d) = refl
length-encode_body (send_unreliable_fragment f) = refl

length-encode : (m : Protocol) → length (encode m []) ≡ command_size m.body
unfolding encode
length-encode m = omega (arith, length-encode_body m.body)

buffer_bytes-length : (m : Memory) (b : Buffer) → length (buffer_bytes m b) ≤ buffer_length b
buffer_bytes-length m (of_command c) = omega (arith, length-encode c)
buffer_bytes-length m (of_packet packet offset len) =
    omega (arith, length-take len (drop offset (get_packet m packet).bytes))

payload_bytes-length :
    (m : Memory) (bs : List Buffer) → length (payload_bytes m bs) ≤ buffers_length bs
unfolding payload_bytes
payload_bytes-length m [] = omega arith
payload_bytes-length m (b ∷ bs) = omega (
  arith,
  length-append (buffer_bytes m b) (payload_bytes m bs),
  buffer_bytes-length m b,
  payload_bytes-length m bs,
)

header_bytes-length : (t : Bool) (id flags now : ℕ) → length (header_bytes t id flags now) ≤ 4
unfolding header_bytes
header_bytes-length true id flags now = omega arith
header_bytes-length false id flags now = omega arith

with_checksum-length :
    (f : Option (List ℕ → ℕ)) (p : Peer) (header payload : List ℕ)
    → length (with_checksum f p header payload) ≡ length header + (if is_some f then 4 else 0)
with_checksum-length none p header payload = omega arith
with_checksum-length (some f) p header payload = length-append header _

-- What is sent for the commands is not longer than they are.
sent-length :
    (f : Option (List ℕ → List ℕ)) (size : ℕ) (payload : List ℕ) (n : ℕ)
    → size ≤ n
    → length payload ≤ n
    → length (or_plain (compress_with f size payload) payload) ≤ n
unfolding compress_with
sent-length none size payload n h l = l
sent-length (some f) size payload n h l =
    elim (Bool-cases (ltb 0 (length (f payload)) && ltb (length (f payload)) size)) [
      | inl e ↦ rw e (ground (arith, e))
      | inr e ↦ rw e l
    ]

-- A datagram that is within its limits, with an MTU below 65536, has no more bytes than the MTU, and 4
-- more at most where the host has a checksum, however its commands are compressed.
pub build_datagram-length :
    (cb : Callbacks) (mtu : ℕ) (c : Conn)
    → mtu < 65536
    → IsWithin mtu c.host
    → length (build_datagram cb c).0 ≤ mtu + (if is_some cb.checksum then 4 else 0)
unfolding build_datagram
build_datagram-length cb mtu c small n =
    let payload = payload_bytes c.host.memory c.host.buffers in
    let size = size_sub c.host.packet_size 4 in
    let compressed = compress_with cb.compress size payload in
    let flags = finish_flags (is_some compressed) c.peer c.host.header_flags in
    let header =
      header_bytes (sends_time c.host.header_flags) c.peer.outgoing_peer_id flags
        c.host.service_time in
    let body =
      sent-length cb.compress size payload (buffers_length c.host.buffers)
        (ground (arith, n.counted, n.size, small))
        (payload_bytes-length c.host.memory c.host.buffers) in
    omega (
      arith,
      n.counted,
      n.size,
      body,
      length-append (with_checksum cb.checksum c.peer header payload) (or_plain compressed payload),
      with_checksum-length cb.checksum c.peer header payload,
      header_bytes-length (sends_time c.host.header_flags) c.peer.outgoing_peer_id flags
          c.host.service_time,
    )
