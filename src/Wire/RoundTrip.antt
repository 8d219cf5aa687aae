-- ===== src/Wire/RoundTrip.antt =====
-- Decoding undoes encoding, for every command that fits its fields.
use enet_rs.Prelude.{
  ℕ, ◌+◌, ◌*◌, ◌/◌, ◌%◌, ◌<◌, ◌≤◌, ◌≡◌, refl, some, List, ◌∷◌, Bool, true, false, arith, ap, drop,
  length, ◌==◌, le→ltb-false, if◌then◌else◌,
}
use mathlib.Core.Path.{◌≡⟨◌⟩◌, ◌∎}
use enet_rs.Protocol.{
  Protocol, Body, Connect, VerifyConnect, Fragment, acknowledge, connect, verify_connect,
  disconnect, ping, send_reliable, send_unreliable, send_fragment, send_unsequenced,
  bandwidth_limit, throttle_configure, send_unreliable_fragment, command_byte, command_number,
  command_size,
}
use enet_rs.Wire.{
  encode_body, encode_fragment, encode, decode_fragment, decode_connect, decode_verify, decode_body,
  decode, check_size, with_header, field8,
}

abbrev pub Is8 : ℕ → Type 0
Is8 n = n < 256

abbrev pub Is16 : ℕ → Type 0
Is16 n = n < 65536

abbrev pub Is32 : ℕ → Type 0
Is32 n = n < 4294967296

pub record FragmentFits (f : Fragment) : Type 0 where
  pub start : Is16 f.start_sequence_number
  pub len : Is16 f.data_length
  pub count : Is32 f.fragment_count
  pub number : Is32 f.fragment_number
  pub total : Is32 f.total_length
  pub offset : Is32 f.fragment_offset

pub record ConnectFits (k : Connect) : Type 0 where
  pub peer : Is16 k.outgoing_peer_id
  pub incoming_session : Is8 k.incoming_session_id
  pub outgoing_session : Is8 k.outgoing_session_id
  pub mtu : Is32 k.mtu
  pub window : Is32 k.window_size
  pub channels : Is32 k.channel_count
  pub incoming : Is32 k.incoming_bandwidth
  pub outgoing : Is32 k.outgoing_bandwidth
  pub interval : Is32 k.packet_throttle_interval
  pub acceleration : Is32 k.packet_throttle_acceleration
  pub deceleration : Is32 k.packet_throttle_deceleration
  pub id : Is32 k.connect_id
  pub code : Is32 k.connect_data

pub record VerifyFits (v : VerifyConnect) : Type 0 where
  pub peer : Is16 v.outgoing_peer_id
  pub incoming_session : Is8 v.incoming_session_id
  pub outgoing_session : Is8 v.outgoing_session_id
  pub mtu : Is32 v.mtu
  pub window : Is32 v.window_size
  pub channels : Is32 v.channel_count
  pub incoming : Is32 v.incoming_bandwidth
  pub outgoing : Is32 v.outgoing_bandwidth
  pub interval : Is32 v.packet_throttle_interval
  pub acceleration : Is32 v.packet_throttle_acceleration
  pub deceleration : Is32 v.packet_throttle_deceleration
  pub id : Is32 v.connect_id

abbrev pub BodyFits : Body → Type 0
BodyFits (acknowledge number time) = Is16 number × Is16 time
BodyFits (connect k) = ConnectFits k
BodyFits (verify_connect v) = VerifyFits v
BodyFits (disconnect code) = Is32 code
BodyFits ping = Unit {0}
BodyFits (send_reliable len) = Is16 len
BodyFits (send_unreliable number len) = Is16 number × Is16 len
BodyFits (send_fragment f) = FragmentFits f
BodyFits (send_unsequenced group len) = Is16 group × Is16 len
BodyFits (bandwidth_limit incoming outgoing) = Is32 incoming × Is32 outgoing
BodyFits (throttle_configure i a d) = Is32 i × Is32 a × Is32 d
BodyFits (send_unreliable_fragment f) = FragmentFits f

-- Every number of the command is within the width of its field.
pub record Fits (c : Protocol) : Type 0 where
  pub channel : Is8 c.channel_id
  pub number : Is16 c.reliable_sequence_number
  pub body : BodyFits c.body

word8 : (n : ℕ) → Is8 n → n % 256 ≡ n
word8 n h = omega arith

word16 : (n : ℕ) → Is16 n → (n / 256 % 256) * 256 + n % 256 ≡ n
word16 n h = omega arith

word32 :
    (n : ℕ)
    → Is32 n
    → (n / 16777216 % 256) * 16777216 + (n / 65536 % 256) * 65536 + (n / 256 % 256) * 256 + n % 256
      ≡ n
word32 n h = omega arith

module _ (x y z w : ℕ) (bs : List ℕ) where
  -- The structure behind a command header of any four bytes.
  abbrev overlay : List ℕ → List ℕ
  overlay rest = x ∷ y ∷ z ∷ w ∷ rest

  decode-encode_fragment :
      (f : Fragment) → FragmentFits f → decode_fragment (overlay (encode_fragment f bs)) ≡ f
  unfolding decode_fragment encode_fragment
  decode-encode_fragment f h = λ i. record {
    start_sequence_number = word16 f.start_sequence_number h.start i;
    data_length = word16 f.data_length h.len i;
    fragment_count = word32 f.fragment_count h.count i;
    fragment_number = word32 f.fragment_number h.number i;
    total_length = word32 f.total_length h.total i;
    fragment_offset = word32 f.fragment_offset h.offset i;
  }

  decode-encode_connect :
      (k : Connect) → ConnectFits k → decode_connect (overlay (encode_body (connect k) bs)) ≡ k
  unfolding decode_connect encode_body
  decode-encode_connect k h = λ i. record {
    outgoing_peer_id = word16 k.outgoing_peer_id h.peer i;
    incoming_session_id = word8 k.incoming_session_id h.incoming_session i;
    outgoing_session_id = word8 k.outgoing_session_id h.outgoing_session i;
    mtu = word32 k.mtu h.mtu i;
    window_size = word32 k.window_size h.window i;
    channel_count = word32 k.channel_count h.channels i;
    incoming_bandwidth = word32 k.incoming_bandwidth h.incoming i;
    outgoing_bandwidth = word32 k.outgoing_bandwidth h.outgoing i;
    packet_throttle_interval = word32 k.packet_throttle_interval h.interval i;
    packet_throttle_acceleration = word32 k.packet_throttle_acceleration h.acceleration i;
    packet_throttle_deceleration = word32 k.packet_throttle_deceleration h.deceleration i;
    connect_id = word32 k.connect_id h.id i;
    connect_data = word32 k.connect_data h.code i;
  }

  decode-encode_verify :
      (v : VerifyConnect)
      → VerifyFits v
      → decode_verify (overlay (encode_body (verify_connect v) bs)) ≡ v
  unfolding decode_verify encode_body
  decode-encode_verify v h = λ i. record {
    outgoing_peer_id = word16 v.outgoing_peer_id h.peer i;
    incoming_session_id = word8 v.incoming_session_id h.incoming_session i;
    outgoing_session_id = word8 v.outgoing_session_id h.outgoing_session i;
    mtu = word32 v.mtu h.mtu i;
    window_size = word32 v.window_size h.window i;
    channel_count = word32 v.channel_count h.channels i;
    incoming_bandwidth = word32 v.incoming_bandwidth h.incoming i;
    outgoing_bandwidth = word32 v.outgoing_bandwidth h.outgoing i;
    packet_throttle_interval = word32 v.packet_throttle_interval h.interval i;
    packet_throttle_acceleration = word32 v.packet_throttle_acceleration h.acceleration i;
    packet_throttle_deceleration = word32 v.packet_throttle_deceleration h.deceleration i;
    connect_id = word32 v.connect_id h.id i;
  }

  decode-encode_body :
      (b : Body) → BodyFits b → decode_body (command_number b) (overlay (encode_body b bs)) ≡ some b
  unfolding decode_body encode_body command_number
  decode-encode_body (acknowledge number time) h =
      λ i. some (acknowledge (word16 number h.0 i) (word16 time h.1 i))
  decode-encode_body (connect k) h = ap (λ t. some (connect t)) (decode-encode_connect k h)
  decode-encode_body (verify_connect v) h =
      ap (λ t. some (verify_connect t)) (decode-encode_verify v h)
  decode-encode_body (disconnect code) h = ap (λ t. some (disconnect t)) (word32 code h)
  decode-encode_body ping h = refl
  decode-encode_body (send_reliable len) h = ap (λ t. some (send_reliable t)) (word16 len h)
  decode-encode_body (send_unreliable number len) h =
      λ i. some (send_unreliable (word16 number h.0 i) (word16 len h.1 i))
  decode-encode_body (send_fragment f) h =
      ap (λ t. some (send_fragment t)) (decode-encode_fragment f h)
  decode-encode_body (send_unsequenced group len) h =
      λ i. some (send_unsequenced (word16 group h.0 i) (word16 len h.1 i))
  decode-encode_body (bandwidth_limit incoming outgoing) h =
      λ i. some (bandwidth_limit (word32 incoming h.0 i) (word32 outgoing h.1 i))
  decode-encode_body (throttle_configure a b d) h =
      λ i. some (throttle_configure (word32 a h.0 i) (word32 b h.1 i) (word32 d h.2 i))
  decode-encode_body (send_unreliable_fragment f) h =
      ap (λ t. some (send_unreliable_fragment t)) (decode-encode_fragment f h)

  -- The size in the table is the number of bytes that are written.
  encoded_size :
      (b : Body)
      → (length (overlay (encode_body b bs)) ≡ command_size b + length bs)
        × (drop (command_size b) (overlay (encode_body b bs)) ≡ bs)
  unfolding encode_body command_size encode_fragment
  encoded_size (acknowledge _ _) = (omega arith, refl)
  encoded_size (connect _) = (omega arith, refl)
  encoded_size (verify_connect _) = (omega arith, refl)
  encoded_size (disconnect _) = (omega arith, refl)
  encoded_size ping = (omega arith, refl)
  encoded_size (send_reliable _) = (omega arith, refl)
  encoded_size (send_unreliable _ _) = (omega arith, refl)
  encoded_size (send_fragment _) = (omega arith, refl)
  encoded_size (send_unsequenced _ _) = (omega arith, refl)
  encoded_size (bandwidth_limit _ _) = (omega arith, refl)
  encoded_size (throttle_configure _ _ _) = (omega arith, refl)
  encoded_size (send_unreliable_fragment _) = (omega arith, refl)

module _ (x y z w : ℕ) (bs : List ℕ) (b : Body) (h : BodyFits b) where
  check_size-body :
      let whole = overlay x y z w bs (encode_body b bs) in
      check_size whole (decode_body (command_number b) whole) ≡ some (with_header whole b, bs)
  check_size-body =
      let size = encoded_size x y z w bs b in
      rw (
        decode-encode_body x y z w bs b h,
        le→ltb-false (length (overlay x y z w bs (encode_body b bs))) (command_size b)
            (omega (arith, size.0)),
        size.1,
      )

command_number_bound : (b : Body) → command_number b < 13
unfolding command_number
command_number_bound (acknowledge _ _) = omega arith
command_number_bound _ = omega arith

-- The command number and the two flags are found in the first byte.
byte_fields :
    (n : ℕ) (u a : Bool)
    → n < 13
    → let byte = (n + (if u then 64 else 0) + (if a then 128 else 0)) % 256 in
      (byte % 16 ≡ n) × ((byte / 128 % 2 == 1) ≡ a) × ((byte / 64 % 2 == 1) ≡ u)
byte_fields n true true h = ground arith
byte_fields n true false h = ground arith
byte_fields n false true h = ground arith
byte_fields n false false h = ground arith

long_enough :
    (bytes : List ℕ)
    → 4 ≤ length bytes
    → decode bytes ≡ check_size bytes (decode_body (field8 bytes 0 % 16) bytes)
unfolding decode
long_enough bytes h = rw (le→ltb-false (length bytes) 4 h)

-- For every command whose numbers are within the widths of their fields, and any bytes behind it:
-- decoding its encoding gives the command and those bytes.
pub decode-encode : (c : Protocol) (bs : List ℕ) → Fits c → decode (encode c bs) ≡ some (c, bs)
unfolding decode encode command_byte
decode-encode c bs h =
    let n = command_number c.body in
    let e = byte_fields n c.flag_unsequenced c.flag_acknowledge (command_number_bound c.body) in
    let x = command_byte c % 256 in
    let y = c.channel_id % 256 in
    let z = c.reliable_sequence_number / 256 % 256 in
    let w = c.reliable_sequence_number % 256 in
    let whole = overlay x y z w bs (encode_body c.body bs) in
    decode whole
    ≡⟨ long_enough whole (omega arith) ⟩ check_size whole (decode_body (x % 16) whole)
    ≡⟨ ap (λ k. check_size whole (decode_body k whole)) e.0 ⟩ check_size whole (decode_body n whole)
    ≡⟨ check_size-body x y z w bs c.body h.body ⟩ some (with_header whole c.body, bs)
    ≡⟨ (λ i. some (
      record {
        flag_acknowledge = e.1 i;
        flag_unsequenced = e.2 i;
        channel_id = word8 c.channel_id h.channel i;
        reliable_sequence_number = word16 c.reliable_sequence_number h.number i;
        body = c.body;
      },
      bs,
    )) ⟩
      some (c, bs) ∎
