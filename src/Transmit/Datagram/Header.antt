-- ===== src/Transmit/Datagram/Header.antt =====
-- The header of a datagram of original/protocol.c, as it is put together and as it is read.
use Prim.Native.Nat.{bit_or}
use enet_rs.Prelude.{
  ℕ, ◌+◌, ◌*◌, ◌/◌, ◌%◌, ◌<◌, ◌≡◌, refl, sym, ap, ◌∙◌, Bool, true, false, Option, none, some, List,
  [], ◌++◌, drop, ◌==◌, if◌then◌else◌, set_bit, arith,
}
use enet_rs.Prelude.Xor.{shifted}
use enet_rs.Prelude.Or.{or_above, or_below}
use enet_rs.Protocol.{maximum_peer_id}
use enet_rs.Wire.{put16, field16}
use enet_rs.State.{Peer}
use enet_rs.Handle.Datagram.{Header, decode_header, is_some}
use enet_rs.Transmit.Datagram.{finish_flags, with_checksum}

-- headerFlags before a turn's end: the bit for the sent time, or nothing.
abbrev pub flags_of : Bool → ℕ
flags_of t = if t then 32768 else 0

pub set_bit_14 : (t : Bool) → set_bit (flags_of t) 14 ≡ flags_of t + 16384
unfolding set_bit
set_bit_14 true = refl
set_bit_14 false = refl

pub flags_session :
    (t z : Bool) (session : ℕ)
    → session < 4
    → bit_or (if z then flags_of t + 16384 else flags_of t) (session * 4096)
      ≡ (if z then flags_of t + 16384 else flags_of t) + session * 4096
flags_session true true session h = or_above 14 3 (session * 4096) (omega (arith, h))
flags_session true false session h = or_above 14 2 (session * 4096) (omega (arith, h))
flags_session false true session h = or_above 14 1 (session * 4096) (omega (arith, h))
flags_session false false session h = or_above 14 0 (session * 4096) (omega (arith, h))

-- The bits above the peer's id.
abbrev pub upper : Bool → Bool → ℕ → ℕ
upper t z session = (if z then flags_of t + 16384 else flags_of t) + session * 4096

pub finish_flags-upper :
    (t z : Bool) (p : Peer)
    → p.outgoing_peer_id < maximum_peer_id
    → p.outgoing_session_id < 4
    → finish_flags z p (flags_of t) ≡ upper t z p.outgoing_session_id
unfolding finish_flags
finish_flags-upper t z p h s =
    ground (arith, flags_session t z p.outgoing_session_id s, set_bit_14 t)

-- A quarter of the bits above a peer's id.
abbrev pub fourth : Bool → Bool → ℕ → ℕ
fourth true true session = 12 + session
fourth true false session = 8 + session
fourth false true session = 4 + session
fourth false false session = session

pub word_sum :
    (t z : Bool) (session id : ℕ)
    → id < 4096
    → bit_or id (upper t z session) ≡ upper t z session + id
word_sum t z session id h =
    let split : shifted 12 (fourth t z session) ≡ upper t z session = quarters t z session in
    ap (λ w. bit_or id w) (sym split)
    ∙ or_below 12 (fourth t z session) id (omega (arith, h))
    ∙ ap (λ w. w + id) split
  where
    quarters : (t z : Bool) (session : ℕ) → shifted 12 (fourth t z session) ≡ upper t z session
    quarters true true session = omega arith
    quarters true false session = omega arith
    quarters false true session = omega arith
    quarters false false session = omega arith

-- What the header is read as.
abbrev pub header_of : Bool → Bool → Bool → ℕ → ℕ → ℕ → Header
header_of t z has_checksum id session now = record {
  peer_id = id;
  session_id = session;
  is_compressed = z;
  sent_time = if t then some (now % 65536) else none;
  size = (if t then 4 else 2) + (if has_checksum then 4 else 0);
}

-- The header by its first word and its second.
abbrev pub header_at : Bool → ℕ → ℕ → Header
header_at has_checksum word time = record {
  peer_id = word % 4096;
  session_id = word / 4096 % 4;
  is_compressed = word / 16384 % 2 == 1;
  sent_time = if word / 32768 % 2 == 1 then some time else none;
  size = (if word / 32768 % 2 == 1 then 4 else 2) + (if has_checksum then 4 else 0);
}

pub decode_header-at :
    (has_checksum : Bool) (bytes : List ℕ)
    → decode_header has_checksum bytes ≡ header_at has_checksum (field16 bytes 0) (field16 bytes 2)
unfolding decode_header
decode_header-at has_checksum bytes = refl

pub word_id :
    (t z : Bool) (session id : ℕ) → id < 4096 → session < 4 → (upper t z session + id) % 4096 ≡ id
word_id t z session id h s = ground arith

pub word_session :
    (t z : Bool) (session id : ℕ)
    → id < 4096
    → session < 4
    → (upper t z session + id) / 4096 % 4 ≡ session
word_session t z session id h s = ground arith

pub word_compressed :
    (t z : Bool) (session id : ℕ)
    → id < 4096
    → session < 4
    → ((upper t z session + id) / 16384 % 2 == 1) ≡ z
word_compressed t z session id h s = ground arith

pub word_timed :
    (t z : Bool) (session id : ℕ)
    → id < 4096
    → session < 4
    → ((upper t z session + id) / 32768 % 2 == 1) ≡ t
word_timed t z session id h s = ground arith

pub header_at-of :
    (t z has_checksum : Bool) (id session now : ℕ)
    → id < 4096
    → session < 4
    → header_at has_checksum (upper t z session + id) (now % 65536)
      ≡ header_of t z has_checksum id session now
header_at-of t z has_checksum id session now h s = λ i. record {
  peer_id = word_id t z session id h s i;
  session_id = word_session t z session id h s i;
  is_compressed = word_compressed t z session id h s i;
  sent_time = if word_timed t z session id h s i then some (now % 65536) else none;
  size = (if word_timed t z session id h s i then 4 else 2) + (if has_checksum then 4 else 0);
}

-- A header without a sent time does not depend on the second word.
pub header_at-untimed :
    (z has_checksum : Bool) (id session now time : ℕ)
    → id < 4096
    → session < 4
    → header_at has_checksum (upper false z session + id) time
      ≡ header_at has_checksum (upper false z session + id) (now % 65536)
header_at-untimed z has_checksum id session now time h s =
    ap
      (λ b. record {
        peer_id = (upper false z session + id) % 4096;
        session_id = (upper false z session + id) / 4096 % 4;
        is_compressed = (upper false z session + id) / 16384 % 2 == 1;
        sent_time = if b then some time else none;
        size = (if b then 4 else 2) + (if has_checksum then 4 else 0);
      })
      (word_timed false z session id h s)
    ∙ sym (
        ap
          (λ b. record {
            peer_id = (upper false z session + id) % 4096;
            session_id = (upper false z session + id) / 4096 % 4;
            is_compressed = (upper false z session + id) / 16384 % 2 == 1;
            sent_time = if b then some (now % 65536) else none;
            size = (if b then 4 else 2) + (if has_checksum then 4 else 0);
          })
          (word_timed false z session id h s))

pub read_word : (w : ℕ) → w < 65536 → w / 256 % 256 * 256 + w % 256 ≡ w
read_word w h = omega (arith, h)

pub word_small :
    (t z : Bool) (session id : ℕ) → id < 4096 → session < 4 → upper t z session + id < 65536
word_small t z session id h s = ground arith

-- The bytes in front of the commands, with a checksum or without.
abbrev pub front_bytes : Option (List ℕ → ℕ) → Peer → Bool → ℕ → ℕ → List ℕ → List ℕ
front_bytes checksum p t word now payload =
    with_checksum checksum p (put16 word (if t then put16 (now % 65536) [] else [])) payload

-- The two words of what was put.
pub first_word :
    (checksum : Option (List ℕ → ℕ)) (p : Peer) (t : Bool) (word now : ℕ) (payload body : List ℕ)
    → word < 65536
    → field16 (front_bytes checksum p t word now payload ++ body) 0 ≡ word
first_word none p true word now payload body h = read_word word h
first_word none p false word now payload body h = read_word word h
first_word (some f) p true word now payload body h = read_word word h
first_word (some f) p false word now payload body h = read_word word h

pub second_word :
    (checksum : Option (List ℕ → ℕ)) (p : Peer) (word now : ℕ) (payload body : List ℕ)
    → field16 (front_bytes checksum p true word now payload ++ body) 2 ≡ now % 65536
second_word none p word now payload body = read_word (now % 65536) (omega arith)
second_word (some f) p word now payload body = read_word (now % 65536) (omega arith)

pub decode_front :
    (checksum : Option (List ℕ → ℕ)) (p : Peer) (t z : Bool) (id session now : ℕ)
    (payload body : List ℕ)
    → id < 4096
    → session < 4
    → decode_header
        (is_some checksum)
        (front_bytes checksum p t (upper t z session + id) now payload ++ body)
      ≡ header_of t z (is_some checksum) id session now
decode_front checksum p true z id session now payload body h s =
    let word = upper true z session + id in
    let bytes = front_bytes checksum p true word now payload ++ body in
    decode_header-at (is_some checksum) bytes
    ∙ ap (λ w. header_at (is_some checksum) w (field16 bytes 2))
        (first_word checksum p true word now payload body (word_small true z session id h s))
    ∙ ap (header_at (is_some checksum) word) (second_word checksum p word now payload body)
    ∙ header_at-of true z (is_some checksum) id session now h s
decode_front checksum p false z id session now payload body h s =
    let word = upper false z session + id in
    let bytes = front_bytes checksum p false word now payload ++ body in
    decode_header-at (is_some checksum) bytes
    ∙ ap (λ w. header_at (is_some checksum) w (field16 bytes 2))
        (first_word checksum p false word now payload body (word_small false z session id h s))
    ∙ header_at-untimed z (is_some checksum) id session now (field16 bytes 2) h s
    ∙ header_at-of false z (is_some checksum) id session now h s

-- Behind the header is what was put there.
pub drop_front :
    (checksum : Option (List ℕ → ℕ)) (p : Peer) (t : Bool) (word now : ℕ) (payload body : List ℕ)
    → drop
        ((if t then 4 else 2) + (if is_some checksum then 4 else 0))
        (front_bytes checksum p t word now payload ++ body)
      ≡ body
drop_front none p true word now payload body = refl
drop_front none p false word now payload body = refl
drop_front (some f) p true word now payload body = refl
drop_front (some f) p false word now payload body = refl
