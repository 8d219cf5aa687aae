-- ===== src/Transmit/Datagram/RoundTrip.antt =====
-- A datagram that the sending half of original/protocol.c builds, as the receiving half reads it.
use Prim.Native.Nat.{bit_or}
use enet_rs.Prelude.{
  ℕ, ◌+◌, ◌*◌, ◌/◌, ◌%◌, ◌<◌, ◌≡◌, refl, ap, ◌∙◌, Bool, true, false, Option, none, some, List, ◌++◌,
  size_sub, ◌==◌, if◌then◌else◌, test_bit, arith,
}
use enet_rs.Protocol.{maximum_peer_id}
use enet_rs.Wire.{put16, put32}
use enet_rs.State.{Peer, Conn}
use enet_rs.Handle.Datagram.{Callbacks, checks_out, is_some}
use enet_rs.Transmit.Datagram.{
  payload_bytes, compress_with, finish_flags, header_bytes, sends_time, checksum_seed, or_plain,
  build_datagram,
}
use enet_rs.Transmit.Datagram.Header.{flags_of, upper, finish_flags-upper, word_sum, front_bytes}

-- A checksum of 32 bits, if there is one.
pub data Gives32 : Option (List ℕ → ℕ) → Type 0 where
  no_checksum : Gives32 none
  gives : (f : List ℕ → ℕ) → ((bytes : List ℕ) → f bytes < 4294967296) → Gives32 (some f)

same_word :
    (x y : ℕ)
    → x ≡ y
    → y < 4294967296
    → (x == y / 16777216 % 256 * 16777216 + y / 65536 % 256 * 65536 + y / 256 % 256 * 256 + y % 256)
      ≡ true
same_word x y e h = ground arith

seed_id : (p : Peer) → p.outgoing_peer_id < maximum_peer_id → p.connect_id ≡ checksum_seed p
seed_id p h = ground arith

-- The receiving side with the same checksum finds it to be right for the commands as they were before
-- they were compressed.
checks_front :
    (checksum : Option (List ℕ → ℕ)) (p : Peer) (t : Bool) (word now : ℕ) (payload : List ℕ)
    → p.outgoing_peer_id < maximum_peer_id
    → Gives32 checksum
    → checks_out checksum
        ((if t then 4 else 2) + (if is_some checksum then 4 else 0))
        p.connect_id
        (front_bytes checksum p t word now payload ++ payload)
      ≡ true
checks_front none p t word now payload h small = refl
checks_front (some f) p true word now payload h (gives _ small) =
    same_word _ (f (put16 word (put16 (now % 65536) (put32 (checksum_seed p) payload))))
      (ap (λ id. f (put16 word (put16 (now % 65536) (put32 id payload)))) (seed_id p h)) (small _)
checks_front (some f) p false word now payload h (gives _ small) =
    same_word _ (f (put16 word (put32 (checksum_seed p) payload)))
      (ap (λ id. f (put16 word (put32 id payload))) (seed_id p h)) (small _)

sends_time-flags : (t : Bool) → sends_time (flags_of t) ≡ t
unfolding test_bit
sends_time-flags true = refl
sends_time-flags false = refl

-- What a datagram carries: the commands, and how they are sent.
abbrev pub commands_of : Conn → List ℕ
commands_of c = payload_bytes c.host.memory c.host.buffers

abbrev pub compressed_of : Callbacks → Conn → Option (List ℕ)
compressed_of cb c = compress_with cb.compress (size_sub c.host.packet_size 4) (commands_of c)

build_datagram-front :
    (cb : Callbacks) (c : Conn) (t : Bool)
    → c.host.header_flags ≡ flags_of t
    → c.peer.outgoing_peer_id < maximum_peer_id
    → c.peer.outgoing_session_id < 4
    → (build_datagram cb c).0
      ≡ front_bytes cb.checksum c.peer t
          (upper t (is_some (compressed_of cb c)) c.peer.outgoing_session_id
            + c.peer.outgoing_peer_id)
          c.host.service_time
          (commands_of c)
        ++ or_plain (compressed_of cb c) (commands_of c)
unfolding build_datagram header_bytes
build_datagram-front cb c t e h s =
    let z = is_some (compressed_of cb c) in
    let flags : finish_flags z c.peer c.host.header_flags ≡ upper t z c.peer.outgoing_session_id =
      ap (finish_flags z c.peer) e ∙ finish_flags-upper t z c.peer h s in
    let word : bit_or c.peer.outgoing_peer_id (finish_flags z c.peer c.host.header_flags)
        ≡ upper t z c.peer.outgoing_session_id + c.peer.outgoing_peer_id =
      ap (bit_or c.peer.outgoing_peer_id) flags
      ∙ word_sum t z c.peer.outgoing_session_id c.peer.outgoing_peer_id (omega (arith, h)) in
    let timed : sends_time c.host.header_flags ≡ t = ap sends_time e ∙ sends_time-flags t in
    λ i.
      front_bytes cb.checksum c.peer (timed i) (word i) c.host.service_time (commands_of c)
      ++ or_plain (compressed_of cb c) (commands_of c)

-- Under the same conditions, a datagram whose commands are not compressed passes the checksum test of
-- the other side, if that uses the same checksum of 32 bits and the same connect id.
pub checks_out-build_datagram :
    (cb : Callbacks) (c : Conn) (t : Bool)
    → c.host.header_flags ≡ flags_of t
    → c.peer.outgoing_peer_id < maximum_peer_id
    → c.peer.outgoing_session_id < 4
    → Gives32 cb.checksum
    → compressed_of cb c ≡ none
    → checks_out cb.checksum
        ((if t then 4 else 2) + (if is_some cb.checksum then 4 else 0))
        c.peer.connect_id
        (build_datagram cb c).0
      ≡ true
checks_out-build_datagram cb c t e h s small plain =
    let n = (if t then 4 else 2) + (if is_some cb.checksum then 4 else 0) in
    let word =
      upper t (is_some (compressed_of cb c)) c.peer.outgoing_session_id + c.peer.outgoing_peer_id in
    ap (checks_out cb.checksum n c.peer.connect_id) (build_datagram-front cb c t e h s)
    ∙ ap
        (λ o. checks_out cb.checksum n c.peer.connect_id (
          front_bytes cb.checksum c.peer t word c.host.service_time (commands_of c)
          ++ or_plain o (commands_of c)))
        plain
    ∙ checks_front cb.checksum c.peer t word c.host.service_time (commands_of c) h small
