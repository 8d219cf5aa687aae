-- ===== src/Wire.antt =====
-- The bytes of a command: the packed structures of original/include/enet/protocol.h, their overlay on
-- the datagram in `enet_protocol_handle_incoming_commands` and the copy in
-- `enet_protocol_check_outgoing_commands` of original/protocol.c. Integers are in network order;
-- `connectID`, which both sides only copy and compare, is read the same way.
pub mod RoundTrip
use enet_rs.Prelude.{
  ℕ, ◌+◌, ◌*◌, ◌/◌, ◌%◌, Option, none, some, List, ◌∷◌, length, get_or, drop, ltb, ◌==◌,
  if◌then◌else◌,
}
use enet_rs.Protocol.{
  Protocol, Body, Connect, VerifyConnect, Fragment, acknowledge, connect, verify_connect,
  disconnect, ping, send_reliable, send_unreliable, send_fragment, send_unsequenced,
  bandwidth_limit, throttle_configure, send_unreliable_fragment, command_byte, command_size,
}

-- Integers at an offset.
abbrev pub field8 : List ℕ → ℕ → ℕ
field8 bs at = get_or bs at 0

abbrev pub field16 : List ℕ → ℕ → ℕ
field16 bs at = get_or bs at 0 * 256 + get_or bs (at + 1) 0

abbrev pub field32 : List ℕ → ℕ → ℕ
field32 bs at =
    get_or bs at 0 * 16777216
    + get_or bs (at + 1) 0 * 65536
    + get_or bs (at + 2) 0 * 256
    + get_or bs (at + 3) 0

-- Integers in front of what follows.
abbrev pub put8 : ℕ → List ℕ → List ℕ
put8 n bs = (n % 256) ∷ bs

abbrev pub put16 : ℕ → List ℕ → List ℕ
put16 n bs = (n / 256 % 256) ∷ (n % 256) ∷ bs

abbrev pub put32 : ℕ → List ℕ → List ℕ
put32 n bs = (n / 16777216 % 256) ∷ (n / 65536 % 256) ∷ (n / 256 % 256) ∷ (n % 256) ∷ bs

unfoldable pub encode_fragment : Fragment → List ℕ → List ℕ
encode_fragment f bs = put16 f.start_sequence_number (
    put16 f.data_length (
      put32 f.fragment_count
        (put32 f.fragment_number (put32 f.total_length (put32 f.fragment_offset bs)))))

-- The structure behind the command header, in front of what follows.
unfoldable pub encode_body : Body → List ℕ → List ℕ
encode_body (acknowledge number time) bs = put16 number (put16 time bs)
encode_body (connect k) bs = put16 k.outgoing_peer_id (
    put8 k.incoming_session_id (
      put8 k.outgoing_session_id (
        put32 k.mtu (
          put32 k.window_size (
            put32 k.channel_count (
              put32 k.incoming_bandwidth (
                put32 k.outgoing_bandwidth (
                  put32 k.packet_throttle_interval (
                    put32 k.packet_throttle_acceleration (
                      put32 k.packet_throttle_deceleration
                        (put32 k.connect_id (put32 k.connect_data bs))))))))))))
encode_body (verify_connect v) bs = put16 v.outgoing_peer_id (
    put8 v.incoming_session_id (
      put8 v.outgoing_session_id (
        put32 v.mtu (
          put32 v.window_size (
            put32 v.channel_count (
              put32 v.incoming_bandwidth (
                put32 v.outgoing_bandwidth (
                  put32 v.packet_throttle_interval (
                    put32 v.packet_throttle_acceleration
                      (put32 v.packet_throttle_deceleration (put32 v.connect_id bs)))))))))))
encode_body (disconnect code) bs = put32 code bs
encode_body ping bs = bs
encode_body (send_reliable len) bs = put16 len bs
encode_body (send_unreliable number len) bs = put16 number (put16 len bs)
encode_body (send_fragment f) bs = encode_fragment f bs
encode_body (send_unsequenced group len) bs = put16 group (put16 len bs)
encode_body (bandwidth_limit incoming outgoing) bs = put32 incoming (put32 outgoing bs)
encode_body (throttle_configure i a d) bs = put32 i (put32 a (put32 d bs))
encode_body (send_unreliable_fragment f) bs = encode_fragment f bs

unfoldable pub encode : Protocol → List ℕ → List ℕ
encode c bs =
    put8 (command_byte c)
      (put8 c.channel_id (put16 c.reliable_sequence_number (encode_body c.body bs)))

unfoldable pub decode_fragment : List ℕ → Fragment
decode_fragment bs = record {
  start_sequence_number = field16 bs 4;
  data_length = field16 bs 6;
  fragment_count = field32 bs 8;
  fragment_number = field32 bs 12;
  total_length = field32 bs 16;
  fragment_offset = field32 bs 20;
}

unfoldable pub decode_connect : List ℕ → Connect
decode_connect bs = record {
  outgoing_peer_id = field16 bs 4;
  incoming_session_id = field8 bs 6;
  outgoing_session_id = field8 bs 7;
  mtu = field32 bs 8;
  window_size = field32 bs 12;
  channel_count = field32 bs 16;
  incoming_bandwidth = field32 bs 20;
  outgoing_bandwidth = field32 bs 24;
  packet_throttle_interval = field32 bs 28;
  packet_throttle_acceleration = field32 bs 32;
  packet_throttle_deceleration = field32 bs 36;
  connect_id = field32 bs 40;
  connect_data = field32 bs 44;
}

unfoldable pub decode_verify : List ℕ → VerifyConnect
decode_verify bs = record {
  outgoing_peer_id = field16 bs 4;
  incoming_session_id = field8 bs 6;
  outgoing_session_id = field8 bs 7;
  mtu = field32 bs 8;
  window_size = field32 bs 12;
  channel_count = field32 bs 16;
  incoming_bandwidth = field32 bs 20;
  outgoing_bandwidth = field32 bs 24;
  packet_throttle_interval = field32 bs 28;
  packet_throttle_acceleration = field32 bs 32;
  packet_throttle_deceleration = field32 bs 36;
  connect_id = field32 bs 40;
}

-- The structure for a command number; 0 and the numbers above 12 have none.
unfoldable pub decode_body : ℕ → List ℕ → Option Body
decode_body number bs =
    if number == 1
    then some (acknowledge (field16 bs 4) (field16 bs 6))
    else if number == 2
    then some (connect (decode_connect bs))
    else if number == 3
    then some (verify_connect (decode_verify bs))
    else if number == 4
    then some (disconnect (field32 bs 4))
    else if number == 5
    then some ping
    else if number == 6
    then some (send_reliable (field16 bs 4))
    else if number == 7
    then some (send_unreliable (field16 bs 4) (field16 bs 6))
    else if number == 8
    then some (send_fragment (decode_fragment bs))
    else if number == 9
    then some (send_unsequenced (field16 bs 4) (field16 bs 6))
    else if number == 10
    then some (bandwidth_limit (field32 bs 4) (field32 bs 8))
    else if number == 11
    then some (throttle_configure (field32 bs 4) (field32 bs 8) (field32 bs 12))
    else if number == 12
    then some (send_unreliable_fragment (decode_fragment bs))
    else none

abbrev pub with_header : List ℕ → Body → Protocol
with_header bs body = record {
  flag_acknowledge = field8 bs 0 / 128 % 2 == 1;
  flag_unsequenced = field8 bs 0 / 64 % 2 == 1;
  channel_id = field8 bs 1;
  reliable_sequence_number = field16 bs 2;
  body = body;
}

-- The command at the front of the data, if its number is known and it is there in full, and the
-- data behind it.
abbrev pub check_size : List ℕ → Option Body → Option (Protocol × List ℕ)
check_size bs none = none
check_size bs (some body) =
    if ltb (length bs) (command_size body)
    then none
    else some (with_header bs body, drop (command_size body) bs)

unfoldable pub decode : List ℕ → Option (Protocol × List ℕ)
decode bs = if ltb (length bs) 4 then none else check_size bs (decode_body (field8 bs 0 % 16) bs)
