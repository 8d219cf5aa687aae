-- ===== src/Peer/Send/Tiling.antt =====
-- The fragments that `enet_peer_send` of original/peer.c cuts a packet into.
use enet_rs.Prelude.{
  some, not, ℕ, zero, suc, ◌+◌, ◌-◌, ◌*◌, ◌/◌, ◌<◌, ◌≤◌, ◌≡◌, List, [], ◌∷◌, length, arith, refl,
  ltb, if◌then◌else◌, inl, inr, Bool-cases, u16, u32, lt→ltb, leb, leb→le, subst, sym, ap,
}
use native.Mathlib.Nat.{div-add-mod, mod-lt}
use enet_rs.State.{OutgoingCommand}
use enet_rs.Peer.Send.{Fragmentation, fragment_body, make_fragment, make_fragments}

-- The command is fragment number n of the packet, for the bytes from `offset` on.
pub record IsFragment (s : Fragmentation) (n offset : ℕ) (o : OutgoingCommand) : Type 0 where
  pub packet : o.packet ≡ some s.packet
  pub place : o.fragment_offset ≡ offset
  pub channel : o.command.channel_id ≡ s.channel_id
  pub wants_acknowledgement : o.command.flag_acknowledge ≡ not s.is_unreliable
  pub body :
      o.command.body
      ≡ fragment_body s (record {
        start_sequence_number = s.start_sequence_number;
        data_length = o.fragment_length;
        fragment_count = s.fragment_count;
        fragment_number = n;
        total_length = s.data_length;
        fragment_offset = offset;
      })

-- The commands are the fragments number n, n + 1, … of the packet, they lie end to end from `offset`
-- to the end of the packet, and each carries between 1 and `len` bytes.
abbrev pub Tiles : Fragmentation → ℕ → ℕ → ℕ → List OutgoingCommand → Type 0
Tiles s len n offset [] = offset ≡ s.data_length
Tiles s len n offset (o ∷ os) =
    IsFragment s n offset o
    × (0 < o.fragment_length)
    × (o.fragment_length ≤ len)
    × Tiles s len (n + 1) (offset + o.fragment_length) os

make_fragment-IsFragment :
    (s : Fragmentation) (n offset l : ℕ)
    → s.data_length < 4294967296
    → IsFragment s n offset (make_fragment s n offset l)
make_fragment-IsFragment s n offset l w =
    let total : u32 s.data_length ≡ s.data_length = omega arith in
    record {
      packet = refl;
      place = refl;
      channel = refl;
      wants_acknowledgement = refl;
      body =
          ap
            (λ (t : ℕ). fragment_body s (record {
              start_sequence_number = s.start_sequence_number;
              data_length = u16 l;
              fragment_count = s.fragment_count;
              fragment_number = n;
              total_length = t;
              fragment_offset = offset;
            }))
            total;
    }

abbrev next_length : Fragmentation → ℕ → ℕ → ℕ
next_length s offset len = if ltb (s.data_length - offset) len then s.data_length - offset else len

next_length-le :
    (s : Fragmentation) (offset len : ℕ)
    → (next_length s offset len ≤ len) × (next_length s offset len ≤ s.data_length - offset)
next_length-le s offset len = (ground arith, ground arith)

-- One round of the loop, with no wrap.
make_fragments-suc :
    (k : ℕ) (s : Fragmentation) (n offset len : ℕ)
    → offset < s.data_length
    → s.data_length < 4294967296
    → n + suc k < 4294967296
    → make_fragments (suc k) s n offset len
      ≡ make_fragment s n offset (next_length s offset len)
        ∷ make_fragments k s (n + 1) (offset + next_length s offset len) (next_length s offset len)
unfolding make_fragments
make_fragments-suc k s n offset len h w v =
    let l = next_length s offset len in
    let number : u32 (n + 1) ≡ n + 1 = omega arith in
    let place : u32 (offset + l) ≡ offset + l = omega (arith, next_length-le s offset len) in
    rw (lt→ltb offset s.data_length h)
      (λ i. make_fragment s n offset l ∷ make_fragments k s (number i) (place i) l)

-- At the end of the packet there are no more.
make_fragments_end :
    (k : ℕ) (s : Fragmentation) (n len : ℕ) → make_fragments k s n s.data_length len ≡ []
unfolding make_fragments
make_fragments_end zero s n len = refl
make_fragments_end (suc k) s n len = ground arith

Tiles-cons :
    (s : Fragmentation) (len n offset l : ℕ) (os : List OutgoingCommand)
    → s.data_length < 4294967296
    → 0 < l
    → l ≤ len
    → len < 65536
    → Tiles s len (n + 1) (offset + l) os
    → Tiles s len n offset (make_fragment s n offset l ∷ os)
Tiles-cons s len n offset l os w pos le small t =
    let e : u16 l ≡ l = omega arith in
    (
      make_fragment-IsFragment s n offset l w,
      omega arith,
      omega arith,
      subst (λ k. Tiles s len (n + 1) (offset + k) os) (sym e) t,
    )

last_index : (k len rest : ℕ) → suc k * len < rest + len → rest ≤ len → k ≡ 0
last_index zero len rest h l = refl
last_index (suc k) len rest h l = absurd (omega arith)

last_tile :
    (k : ℕ) (s : Fragmentation) (n offset len : ℕ)
    → offset < s.data_length
    → s.data_length < 4294967296
    → 0 < len
    → len < 65536
    → suc k * len < s.data_length - offset + len
    → s.data_length - offset ≤ len
    → let l = next_length s offset len in
      let os = make_fragment s n offset l ∷ make_fragments k s (n + 1) (offset + l) l in
      (length os ≡ suc k) × Tiles s len n offset os
last_tile k s n offset len h w pos small tight last =
    let l = s.data_length - offset in
    let e : next_length s offset len ≡ l = ground arith in
    let end : offset + l ≡ s.data_length = omega arith in
    let none_left : k ≡ 0 = last_index k len (s.data_length - offset) tight last in
    rw (e, end, make_fragments_end)
      (omega arith, Tiles-cons s len n offset l [] w (omega arith) last small end)

-- The last fragment may be shorter than the others; the length that follows it does not matter.
tiling :
    (k : ℕ) (s : Fragmentation) (n offset len : ℕ)
    → offset ≤ s.data_length
    → s.data_length < 4294967296
    → n + k < 4294967296
    → 0 < len
    → len < 65536
    → s.data_length - offset ≤ k * len
    → k * len < s.data_length - offset + len
    → (length (make_fragments k s n offset len) ≡ k)
      × Tiles s len n offset (make_fragments k s n offset len)
unfolding make_fragments
tiling zero s n offset len h w v pos small enough tight = (refl, omega arith)
tiling (suc k) s n offset len h w v pos small enough tight =
    let before : offset < s.data_length = omega arith in
    rw (make_fragments-suc k s n offset len before w v)
      (elim (Bool-cases (leb (s.data_length - offset) len)) [
        | inl last ↦
            last_tile k s n offset len before w pos small tight
              (leb→le (s.data_length - offset) len last)
        | inr more ↦
            let full : next_length s offset len ≡ len = ground arith in
            let (count, tiles) =
              tiling k s (n + 1) (offset + len) len (ground arith) w (omega arith) pos small
                (ground arith) (ground arith) in
            rw full (ap suc count, Tiles-cons s len n offset len _ w pos (omega arith) small tiles)
      ])

le-mul_pos : (c len : ℕ) → 0 < len → c ≤ c * len
le-mul_pos zero len h = omega arith
le-mul_pos (suc c) len h = omega (arith, le-mul_pos c len h)

count_bound : (c len total : ℕ) → 0 < len → c * len < total + len → c ≤ total
count_bound zero len total h l = omega arith
count_bound (suc c) len total h l = omega (arith, le-mul_pos c len h)

-- For a packet of less than 4 GB, cut into pieces of `len` bytes with 0 < len < 65536, where the
-- fragment count is the packet's length divided by `len`, rounded up: the loop of `enet_peer_send`
-- makes exactly that many fragments, numbered from 0; they lie end to end from the first byte of the
-- packet to its last, each carries between 1 and `len` bytes of that packet on its channel, asks for an
-- acknowledgement unless it is unreliable, and says its number, its place, its length, the number it
-- starts at, and the packet's length and fragment count.
pub fragments_tile :
    (s : Fragmentation) (len : ℕ)
    → s.data_length < 4294967296
    → 0 < len
    → len < 65536
    → s.fragment_count ≡ (s.data_length + len - 1) / len
    → (length (make_fragments s.fragment_count s 0 0 len) ≡ s.fragment_count)
      × Tiles s len 0 0 (make_fragments s.fragment_count s 0 0 len)
fragments_tile s len w pos small e =
    let parts = div-add-mod (s.data_length + len - 1) len in
    let rest = mod-lt (s.data_length + len - 1) pos in
    let product = ap (λ (t : ℕ). t * len) e in
    tiling s.fragment_count s 0 0 len (omega arith) w
      (omega (
        arith,
        count_bound s.fragment_count len s.data_length pos (omega (arith, parts, rest, product)),
      ))
      pos small (omega (arith, parts, rest, product)) (omega (arith, parts, rest, product))
