-- ===== src/Transmit/Outgoing/Limits.antt =====
-- The limits of a datagram: `enet_protocol_send_acknowledgements` and
-- `enet_protocol_check_outgoing_commands` of original/protocol.c.
pub mod Loop
pub mod Full
use enet_rs.Prelude.{
  ℕ, zero, suc, ◌+◌, ◌-◌, ◌<◌, ◌≤◌, ◌≡◌, refl, sym, ◌∙◌, ap, subst, inl, inr, Bool, true, false,
  not, ◌&&◌, ◌||◌, Option, none, some, List, [], ◌∷◌, ◌++◌, length, length-append, is_empty,
  if◌then◌else◌, Bool-cases, arith, leb, ltb, ◌==◌, u16, size_sub,
}
use enet_rs.Protocol.{Protocol, Body, command_size, maximum_packet_commands}
use enet_rs.Time.{time_less}
use enet_rs.Packet.{Memory, release_option}
use enet_rs.State.{OutgoingCommand, Buffer, of_command, of_packet, Peer, Host, Conn}
use enet_rs.Peer.Outgoing.{has_packet, get_channel, on_channel}
use enet_rs.Transmit.Acknowledgements.{buffer_maximum, add_command}
use enet_rs.Transmit.Outgoing.{
  Sending, Origin, mixed_queue, reliable_queue, keep, skip_reliable, is_window_blocked,
  exceeds_window, does_not_fit, add_data, add_outgoing, add_to_datagram, count_in_window, launch,
  launch_reliable, drop_same, drop_packet, release_later, count_throttle, send_unreliable_command,
  put_command, put_reliable, consider, next_command, tail, advance, after_next, send_loop,
}

-- The bytes that a buffer takes in the datagram.
abbrev pub buffer_length : Buffer → ℕ
buffer_length (of_command c) = command_size c.body
buffer_length (of_packet packet offset len) = len

abbrev pub buffers_length : List Buffer → ℕ
buffers_length [] = 0
buffers_length (b ∷ bs) = buffer_length b + buffers_length bs

pub buffers_length-append :
    (bs : List Buffer) (b : Buffer)
    → buffers_length (bs ++ (b ∷ [])) ≡ buffers_length bs + buffer_length b
buffers_length-append [] b = omega arith
buffers_length-append (a ∷ bs) b = omega (arith, buffers_length-append bs b)

-- The datagram is within its limits: 32 commands, 64 buffers behind the header's, and, with the 4 bytes
-- of the header and without the checksum, the MTU.
pub record IsWithin (mtu : ℕ) (h : Host) : Type 0 where
  pub commands : length h.commands ≤ 32
  pub buffers : length h.buffers ≤ 64
  pub counted : h.packet_size ≡ 4 + buffers_length h.buffers
  pub size : h.packet_size ≤ mtu

-- The command with its data is shorter than 65536 bytes.
abbrev pub FitsWord : OutgoingCommand → Type 0
FitsWord o = command_size o.command.body + o.fragment_length < 65536

pub add_data-IsWithin :
    (o : OutgoingCommand) (packet : Option ℕ) (mtu : ℕ) (h : Host)
    → length h.commands ≤ 32
    → length h.buffers ≤ 63
    → h.packet_size ≡ 4 + buffers_length h.buffers
    → h.packet_size ≤ mtu
    → (has_packet packet ≡ true → h.packet_size + o.fragment_length ≤ mtu)
    → IsWithin mtu (add_data o packet h)
add_data-IsWithin o none mtu h a b m c d = record {
  commands = a;
  buffers = omega (arith, b);
  counted = m;
  size = c;
}
add_data-IsWithin o (some k) mtu h a b m c d = record {
  commands = a;
  buffers =
      omega
        (arith, b, length-append h.buffers (of_packet k o.fragment_offset o.fragment_length ∷ []));
  counted =
      omega (
        arith,
        m,
        buffers_length-append h.buffers (of_packet k o.fragment_offset o.fragment_length),
      );
  size = d refl;
}

pub add_outgoing-IsWithin :
    (o : OutgoingCommand) (mtu : ℕ) (h : Host) (p : Peer)
    → p.mtu ≡ mtu
    → mtu < 65536
    → FitsWord o
    → does_not_fit o h p ≡ false
    → IsWithin mtu h
    → IsWithin mtu (add_outgoing o h)
unfolding add_outgoing add_command does_not_fit
add_outgoing-IsWithin o mtu h p e small fits d n =
    add_data-IsWithin o o.packet mtu (add_command o.command h)
      (ground (arith, length-append h.commands (o.command ∷ []), d))
      (ground (arith, length-append h.buffers (of_command o.command ∷ []), d))
      (omega (arith, n.counted, buffers_length-append h.buffers (of_command o.command)))
      (let s = n.size in ground arith) (λ k. let s = n.size in ground arith)

-- All commands of a queue.
pub data AllFit : List OutgoingCommand → Type 0 where
  none_left : AllFit []
  fits_first :
      (o : OutgoingCommand) (os : List OutgoingCommand) → FitsWord o → AllFit os → AllFit (o ∷ os)

-- What the loop keeps.
pub record IsGood (mtu : ℕ) (s : Sending) : Type 0 where
  pub within : IsWithin mtu s.host
  pub same_mtu : s.peer.mtu ≡ mtu
  pub queue : AllFit s.outgoing
  pub reliable_queue : AllFit s.reliable

pub IsGood-if :
    (t : Bool) (mtu : ℕ) (a b : Sending)
    → IsGood mtu a
    → IsGood mtu b
    → IsGood mtu (if t then a else b)
IsGood-if true mtu a b p q = p
IsGood-if false mtu a b p q = q

pub IsGood-if₂ :
    (t : Bool) (mtu : ℕ) (a b : Sending × Bool)
    → IsGood mtu a.0
    → IsGood mtu b.0
    → IsGood mtu (if t then a else b).0
IsGood-if₂ true mtu a b p q = p
IsGood-if₂ false mtu a b p q = q

-- A change of other parts.
pub IsGood-of :
    (mtu : ℕ) (a b : Sending)
    → IsWithin mtu a.host
    → a.peer.mtu ≡ b.peer.mtu
    → a.outgoing ≡ b.outgoing
    → AllFit a.reliable
    → IsGood mtu b
    → IsGood mtu a
IsGood-of mtu a b w m q r g = record {
  within = w;
  same_mtu = m ∙ g.same_mtu;
  queue = subst AllFit (sym q) g.queue;
  reliable_queue = r;
}

pub same-IsWithin :
    (mtu : ℕ) (h g : Host)
    → h.commands ≡ g.commands
    → h.buffers ≡ g.buffers
    → h.packet_size ≡ g.packet_size
    → IsWithin mtu g
    → IsWithin mtu h
same-IsWithin mtu h g a b c n = record {
  commands = omega (arith, ap length a, n.commands);
  buffers = omega (arith, ap length b, n.buffers);
  counted = c ∙ n.counted ∙ sym (ap (λ bs. 4 + buffers_length bs) b);
  size = omega (arith, c, n.size);
}

pub keep-IsGood :
    (mtu : ℕ) (g : Origin) (o : OutgoingCommand) (s : Sending)
    → IsGood mtu s
    → IsGood mtu (keep g o s)
unfolding keep
keep-IsGood mtu mixed_queue o s n = IsGood-of mtu _ s n.within refl refl n.reliable_queue n
keep-IsGood mtu reliable_queue o s n = IsGood-of mtu _ s n.within refl refl n.reliable_queue n

pub skip_reliable-IsGood : (mtu : ℕ) (s : Sending) → IsGood mtu s → IsGood mtu (skip_reliable s)
unfolding skip_reliable
skip_reliable-IsGood mtu s n = IsGood-of mtu _ s n.within refl refl none_left n

pub launch-mtu : (o : OutgoingCommand) (now : ℕ) (p : Peer) → (launch o now p).mtu ≡ p.mtu
unfolding launch count_in_window
launch-mtu o now p =
    elim (Bool-cases (ltb o.command.channel_id p.channel_count && ltb o.send_attempts 1)) [
      | inl e ↦ rw e refl
      | inr e ↦ rw e refl
    ]

pub drop_same-AllFit :
    (number unreliable : ℕ) (os : List OutgoingCommand) (m : Memory)
    → AllFit os
    → AllFit (drop_same number unreliable os m).0
unfolding drop_same
drop_same-AllFit number unreliable [] m none_left = none_left
drop_same-AllFit number unreliable (o ∷ os) m (fits_first _ _ f fs) =
    elim (Bool-cases
      (o.reliable_sequence_number == number && o.unreliable_sequence_number == unreliable)) [
        | inl e ↦ rw e (drop_same-AllFit number unreliable os _ fs)
        | inr e ↦ rw e (fits_first o os f fs)
      ]

pub drop_packet-IsGood :
    (mtu : ℕ) (o : OutgoingCommand) (s : Sending) → IsGood mtu s → IsGood mtu (drop_packet o s)
unfolding drop_packet
drop_packet-IsGood mtu o s n = record {
  within = same-IsWithin mtu _ s.host refl refl refl n.within;
  same_mtu = n.same_mtu;
  queue = drop_same-AllFit _ _ s.outgoing _ n.queue;
  reliable_queue = n.reliable_queue;
}

-- A command that fits goes into the datagram; the host of `s` is that of `t` up to its memory.
pub add_to_datagram-IsGood :
    (mtu : ℕ) (o : OutgoingCommand) (s : Sending)
    → mtu < 65536
    → FitsWord o
    → does_not_fit o s.host s.peer ≡ false
    → IsGood mtu s
    → IsGood mtu (add_to_datagram o s)
unfolding add_to_datagram
add_to_datagram-IsGood mtu o s small f d n =
    IsGood-of mtu _ s (add_outgoing-IsWithin o mtu s.host s.peer n.same_mtu small f d n.within) refl
      refl n.reliable_queue n

pub does_not_fit-same :
    (o : OutgoingCommand) (h g : Host) (p q : Peer)
    → h.commands ≡ g.commands
    → h.buffers ≡ g.buffers
    → h.packet_size ≡ g.packet_size
    → p.mtu ≡ q.mtu
    → does_not_fit o h p ≡ does_not_fit o g q
unfolding does_not_fit
does_not_fit-same o h g p q a b c d = cc
