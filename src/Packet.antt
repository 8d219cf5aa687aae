-- ===== src/Packet.antt =====
-- Packets with their reference counts: original/packet.c. A packet pointer is a place in the list of
-- all packets ever created; a destroyed packet keeps its place and is marked. `fresh_byte` is what
-- memory that was never written reads as. Allocation succeeds (the default `no_memory` callback of
-- original/callbacks.c aborts); the user's free callback is not modelled.
pub mod Crc
use enet_rs.Prelude.{
  ℕ, ◌+◌, ◌-◌, Bool, true, false, ◌||◌, Option, none, some, List, [], ◌∷◌, ◌++◌, length, get_or,
  modify, take, drop, replicate, leb, ◌==◌, if◌then◌else◌, test_bit, set_bit, size_sub,
}

-- `ENetPacket`; `bytes` is the block that `data` points to.
pub record Packet : Type 0 where
  pub reference_count : ℕ
  pub flags : ℕ
  pub bytes : List ℕ
  pub data_length : ℕ
  pub destroyed : Bool

pub record Memory : Type 0 where
  pub packets : List Packet
  pub fresh_byte : ℕ

-- The bits of `ENetPacketFlag`.
abbrev pub flag_reliable : ℕ
flag_reliable = 0

abbrev pub flag_unsequenced : ℕ
flag_unsequenced = 1

abbrev pub flag_no_allocate : ℕ
flag_no_allocate = 2

abbrev pub flag_unreliable_fragment : ℕ
flag_unreliable_fragment = 3

abbrev pub flag_sent : ℕ
flag_sent = 8

abbrev pub null_packet : Packet
null_packet = record {
  reference_count = 0;
  flags = 0;
  bytes = [];
  data_length = 0;
  destroyed = true;
}

abbrev pub get_packet : Memory → ℕ → Packet
get_packet m p = get_or m.packets p null_packet

abbrev pub on_packet : Memory → ℕ → (Packet → Packet) → Memory
on_packet m p f = record m { packets = modify m.packets p f }

-- `enet_packet_create`: the new pointer is the next place. `none` for the contents is a NULL `data`.
unfoldable pub packet_create : Option (List ℕ) → ℕ → ℕ → Memory → ℕ × Memory
packet_create contents data_length flags m =
    (length m.packets, record m { packets = m.packets ++ (fresh ∷ []) })
  where
    initial : List ℕ
    initial = elim contents [
      | none ↦ replicate data_length m.fresh_byte
      | some bytes ↦ take data_length bytes
    ]

    fresh : Packet
    fresh = record {
      reference_count = 0;
      flags = flags;
      bytes = initial;
      data_length = data_length;
      destroyed = false;
    }

-- `enet_packet_destroy` of a packet that is not NULL.
unfoldable pub packet_destroy : ℕ → Memory → Memory
packet_destroy p m = on_packet m p (λ k. record k { destroyed = true })

-- `enet_packet_resize`.
unfoldable pub packet_resize : ℕ → ℕ → Memory → Memory
packet_resize p data_length m = on_packet m p resize
  where
    resize : Packet → Packet
    resize k =
        if leb data_length k.data_length || test_bit k.flags flag_no_allocate
        then record k { data_length = data_length }
        else record k {
          bytes =
              take k.data_length k.bytes ++ replicate (data_length - k.data_length) m.fresh_byte;
          data_length = data_length;
        }

-- ++ packet -> referenceCount
unfoldable pub retain : ℕ → ℕ → Memory → Memory
retain count p m = on_packet m p (λ k. record k { reference_count = k.reference_count + count })

-- -- packet -> referenceCount; if (packet -> referenceCount == 0) enet_packet_destroy (packet);
unfoldable pub release : ℕ → Memory → Memory
release p m =
    let m' = on_packet m p (λ k. record k { reference_count = size_sub k.reference_count 1 }) in
    if (get_packet m' p).reference_count == 0 then packet_destroy p m' else m'

-- The same, with the flag ENET_PACKET_FLAG_SENT set before the packet is destroyed.
unfoldable pub release_sent : ℕ → Memory → Memory
release_sent p m =
    let m' = on_packet m p (λ k. record k { reference_count = size_sub k.reference_count 1 }) in
    if (get_packet m' p).reference_count == 0
    then packet_destroy p (on_packet m' p (λ k. record k { flags = set_bit k.flags flag_sent }))
    else m'

abbrev pub release_option : Option ℕ → Memory → Memory
release_option none m = m
release_option (some p) m = release p m

abbrev pub release_sent_option : Option ℕ → Memory → Memory
release_sent_option none m = m
release_sent_option (some p) m = release_sent p m

-- memcpy (packet -> data + offset, source, length of the source)
unfoldable pub write_bytes : ℕ → ℕ → List ℕ → Memory → Memory
write_bytes p offset source m = on_packet m p (λ k. record k {
  bytes = take offset k.bytes ++ source ++ drop (offset + length source) k.bytes;
})
