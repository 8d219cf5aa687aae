-- ===== src/Transmit/Datagram.antt =====
-- The datagram that is sent, of original/protocol.c: the end of a turn of
-- `enet_protocol_send_outgoing_commands`. The compressor and the checksum are the user's, and the
-- network is the system's: what a send returns is an argument.
pub mod Header
pub mod RoundTrip
pub mod Length
use Prim.Native.Nat.{bit_or}
use enet_rs.Prelude.{
  ℕ, ◌*◌, ◌%◌, Bool, ◌&&◌, Option, none, some, List, [], ◌∷◌, ◌++◌, length, take, drop, ltb,
  if◌then◌else◌, u16, size_sub, set_bit, test_bit,
}
use enet_rs.Protocol.{maximum_peer_id}
use enet_rs.Wire.{put16, put32, encode}
use enet_rs.Packet.{Memory, get_packet}
use enet_rs.State.{Address, Buffer, of_command, of_packet, Peer, Conn}
use enet_rs.Handle.Datagram.{Callbacks, is_some}

-- The network: the datagrams that were handed to `enet_socket_send`, the last one in front, and what
-- the k-th call of it returns: a length, or `none` for a negative number.
pub record Network : Type 0 where
  pub sent : List (Address × List ℕ)
  pub outcome : ℕ → Option ℕ

unfoldable pub socket_send : Address → List ℕ → Network → Option ℕ × Network
socket_send address bytes n =
    (n.outcome (length n.sent), record n { sent = (address, bytes) ∷ n.sent })

-- The bytes of a buffer.
abbrev pub buffer_bytes : Memory → Buffer → List ℕ
buffer_bytes m (of_command c) = encode c []
buffer_bytes m (of_packet packet offset len) = take len (drop offset (get_packet m packet).bytes)

-- The bytes of the buffers behind the header's.
unfoldable pub payload_bytes : Memory → List Buffer → List ℕ
payload_bytes m [] = []
payload_bytes m (b ∷ bs) = buffer_bytes m b ++ payload_bytes m bs

-- The compressed commands, if they are shorter.
unfoldable pub compress_with : Option (List ℕ → List ℕ) → ℕ → List ℕ → Option (List ℕ)
compress_with none original_size bytes = none
compress_with (some f) original_size bytes =
    if ltb 0 (length (f bytes)) && ltb (length (f bytes)) original_size
    then some (f bytes)
    else none

-- headerFlags, with the bit for compression and the session id.
unfoldable pub finish_flags : Bool → Peer → ℕ → ℕ
finish_flags is_compressed p flags =
    let f = if is_compressed then set_bit flags 14 else flags in
    if ltb p.outgoing_peer_id maximum_peer_id
    then u16 (bit_or f (p.outgoing_session_id * 4096))
    else f

-- The header before the checksum, with the sent time if a reliable command is sent.
unfoldable pub header_bytes : Bool → ℕ → ℕ → ℕ → List ℕ
header_bytes has_sent_time peer_id flags now =
    put16 (bit_or peer_id flags) (if has_sent_time then put16 (now % 65536) [] else [])

-- headerFlags & ENET_PROTOCOL_HEADER_FLAG_SENT_TIME
abbrev pub sends_time : ℕ → Bool
sends_time flags = test_bit flags 15

-- The connect id of the peer, in the place of the checksum.
abbrev pub checksum_seed : Peer → ℕ
checksum_seed p = if ltb p.outgoing_peer_id maximum_peer_id then p.connect_id else 0

-- The header with the checksum, which covers the commands before they are compressed.
abbrev pub with_checksum : Option (List ℕ → ℕ) → Peer → List ℕ → List ℕ → List ℕ
with_checksum none p header payload = header
with_checksum (some f) p header payload =
    header ++ put32 (f (header ++ put32 (checksum_seed p) payload)) []

abbrev pub or_plain : Option (List ℕ) → List ℕ → List ℕ
or_plain none payload = payload
or_plain (some compressed) payload = compressed

-- The bytes of the datagram, and headerFlags.
unfoldable pub build_datagram : Callbacks → Conn → List ℕ × ℕ
build_datagram cb c =
    let payload = payload_bytes c.host.memory c.host.buffers in
    let compressed = compress_with cb.compress (size_sub c.host.packet_size 4) payload in
    let flags = finish_flags (is_some compressed) c.peer c.host.header_flags in
    let header =
      header_bytes (sends_time c.host.header_flags) c.peer.outgoing_peer_id flags
        c.host.service_time in
    (with_checksum cb.checksum c.peer header payload ++ or_plain compressed payload, flags)
