-- ===== src/Transmit/Outgoing/Limits/Full.antt =====
-- The datagram that a turn of `enet_protocol_send_outgoing_commands` of original/protocol.c fills is
-- within its limits.
use enet_rs.Prelude.{
  ℕ, ◌+◌, ◌<◌, ◌≡◌, refl, ◌∙◌, ap, inl, inr, Bool, true, false, not, ◌&&◌, Option, none, some, List,
  [], ◌∷◌, length, length-append, is_empty, if◌then◌else◌, Bool-cases, arith,
}
use enet_rs.Protocol.{Protocol}
use enet_rs.State.{
  Acknowledgement, OutgoingCommand, Buffer, of_command, Peer, Host, Conn, state_is,
  disconnect_later, zombie, is_connected,
}
use enet_rs.Peer.Outgoing.{
  retain_option, setup_outgoing_command, queue_outgoing_command, has_outgoing_commands,
}
use enet_rs.Peer.Dispatch.{mark_dispatch}
use enet_rs.Peer.Reset.{leave_dispatch_queue, reset_queues, on_connect, on_disconnect, peer_reset}
use enet_rs.Peer.Disconnect.{disconnect_connected, tell_leaving}
use enet_rs.Handle.Notify.{change_state, dispatch_state}
use enet_rs.Protocol.{is_disconnect, command_size}
use enet_rs.Transmit.Acknowledgements.{
  add_command, acknowledgement_for, has_no_room, send_acknowledgement, stop_acknowledging,
  acknowledge_all, send_acknowledgements,
}
use enet_rs.Transmit.Outgoing.{start_sending, send_loop, leave_if_done, check_outgoing_commands}
use enet_rs.Transmit.Outgoing.Limits.{buffers_length-append, IsWithin, AllFit, same-IsWithin}
use enet_rs.Transmit.Outgoing.Limits.Loop.{send_loop-IsGood}

-- The datagram of a host: its commands, its buffers and its size.
abbrev Contents : Type 0
Contents = List Protocol × List Buffer × ℕ

unfoldable contents : Host → Contents
contents h = (h.commands, h.buffers, h.packet_size)

contents-if :
    (t : Bool) (c d : Conn) (h : Host)
    → contents c.host ≡ contents h
    → contents d.host ≡ contents h
    → contents (if t then c else d).host ≡ contents h
contents-if true c d h p q = p
contents-if false c d h p q = q

contents-on_connect : (p : Peer) (h : Host) → contents (on_connect p h) ≡ contents h
unfolding contents on_connect
contents-on_connect p h = elim (Bool-cases (is_connected p.state)) [
  | inl e ↦ rw e refl
  | inr e ↦ rw e refl
]

contents-on_disconnect : (p : Peer) (h : Host) → contents (on_disconnect p h) ≡ contents h
unfolding contents on_disconnect
contents-on_disconnect p h = elim (Bool-cases (is_connected p.state)) [
  | inl e ↦ rw e refl
  | inr e ↦ rw e refl
]

contents-reset_queues : (c : Conn) → contents (reset_queues c).host ≡ contents c.host
unfolding contents reset_queues leave_dispatch_queue
contents-reset_queues c = elim (Bool-cases c.peer.needs_dispatch) [
  | inl e ↦ rw e refl
  | inr e ↦ rw e refl
]

contents-retain_option :
    (packet : Option ℕ) (h : Host) → contents (retain_option packet h) ≡ contents h
unfolding contents
contents-retain_option none h = refl
contents-retain_option (some k) h = refl

contents-queue_outgoing_command :
    (m : Protocol) (packet : Option ℕ) (offset len : ℕ) (c : Conn)
    → contents (queue_outgoing_command m packet offset len c).host ≡ contents c.host
unfolding contents queue_outgoing_command setup_outgoing_command
contents-queue_outgoing_command m packet offset len c = contents-retain_option packet c.host

contents-peer_reset : (c : Conn) → contents (peer_reset c).host ≡ contents c.host
unfolding peer_reset
contents-peer_reset c = contents-reset_queues _ ∙ contents-on_disconnect c.peer c.host

contents-disconnect_connected :
    (code : ℕ) (c : Conn) → contents (disconnect_connected code c).host ≡ contents c.host
unfolding disconnect_connected tell_leaving
contents-disconnect_connected code c =
    contents-on_disconnect _ _
    ∙ contents-queue_outgoing_command _ none 0 0 (reset_queues c)
    ∙ contents-reset_queues c

contents-leave_if_done :
    (unreliable : List OutgoingCommand) (c : Conn)
    → contents (leave_if_done unreliable c).host ≡ contents c.host
unfolding leave_if_done
contents-leave_if_done unreliable c =
    contents-if
      (state_is c.peer.state disconnect_later
        && not (has_outgoing_commands c.peer)
        && is_empty unreliable)
      (disconnect_connected c.peer.event_data c) c c.host
      (contents-disconnect_connected c.peer.event_data c) refl

contents-dispatch_state : (c : Conn) → contents (dispatch_state zombie c).host ≡ contents c.host
unfolding dispatch_state change_state mark_dispatch contents
contents-dispatch_state c =
    contents-if c.peer.needs_dispatch _ _ c.host (contents-on_disconnect c.peer c.host)
      (contents-on_disconnect c.peer c.host)

IsWithin-of : (mtu : ℕ) (h g : Host) → contents h ≡ contents g → IsWithin mtu g → IsWithin mtu h
unfolding contents
IsWithin-of mtu h g e n =
    same-IsWithin mtu h g (ap (λ x. x.0) e) (ap (λ x. x.1) e) (ap (λ x. x.2) e) n

-- If the datagram so far has at most 32 commands and 65 buffers with the header's, if packetSize is the
-- number of bytes of its buffers and of the 4 bytes of the header, if this is at most the peer's MTU,
-- which is below 65536, and if no queued command has 65536 bytes or more with its data, then all this
-- holds of the datagram with the queued commands that `enet_protocol_check_outgoing_commands` adds. The
-- 4 bytes of a checksum are not counted.
pub check_outgoing_commands-IsWithin :
    (unreliable : List OutgoingCommand) (c : Conn)
    → c.peer.mtu < 65536
    → AllFit c.peer.outgoing_commands
    → AllFit c.peer.outgoing_send_reliable_commands
    → IsWithin c.peer.mtu c.host
    → IsWithin c.peer.mtu (check_outgoing_commands unreliable c).conn.host
unfolding check_outgoing_commands start_sending
check_outgoing_commands-IsWithin unreliable c small f r n =
    let s =
      send_loop (length c.peer.outgoing_commands + length c.peer.outgoing_send_reliable_commands)
        (start_sending unreliable c) in
    IsWithin-of c.peer.mtu _ s.host (contents-leave_if_done s.unreliable _)
      (send_loop-IsGood c.peer.mtu _ (start_sending unreliable c) small
        (record { within = n; same_mtu = refl; queue = f; reliable_queue = r })).within

-- An acknowledgement takes 8 bytes, a command and a buffer.
acknowledgement-IsWithin :
    (mtu : ℕ) (a : Acknowledgement) (c : Conn)
    → c.peer.mtu ≡ mtu
    → mtu < 65536
    → has_no_room c ≡ false
    → IsWithin mtu c.host
    → IsWithin mtu (add_command (acknowledgement_for a) c.host)
unfolding add_command has_no_room command_size
acknowledgement-IsWithin mtu a c e small d n = record {
  commands = ground (arith, length-append c.host.commands (acknowledgement_for a ∷ []), d);
  buffers =
      ground (arith, length-append c.host.buffers (of_command (acknowledgement_for a) ∷ []), d);
  counted =
      omega (
        arith,
        n.counted,
        buffers_length-append c.host.buffers (of_command (acknowledgement_for a)),
      );
  size = let s = n.size in ground arith;
}

send_acknowledgement-mtu :
    (a : Acknowledgement) (c : Conn) → (send_acknowledgement a c).peer.mtu ≡ c.peer.mtu
unfolding send_acknowledgement dispatch_state change_state mark_dispatch
send_acknowledgement-mtu a c = elim (Bool-cases (is_disconnect a.command.body)) [
  | inr e ↦ rw e refl
  | inl e ↦ rw e (elim (Bool-cases c.peer.needs_dispatch) [ inl f ↦ rw f refl | inr f ↦ rw f refl ])
]

send_acknowledgement-IsWithin :
    (mtu : ℕ) (a : Acknowledgement) (c : Conn)
    → IsWithin mtu (add_command (acknowledgement_for a) c.host)
    → IsWithin mtu (send_acknowledgement a c).host
unfolding send_acknowledgement
send_acknowledgement-IsWithin mtu a c n =
    let c' : Conn = record c { host = add_command (acknowledgement_for a) c.host } in
    elim (Bool-cases (is_disconnect a.command.body)) [
      | inl e ↦ rw e (IsWithin-of mtu _ c'.host (contents-dispatch_state c') n)
      | inr e ↦ rw e n
    ]

acknowledge_all-IsWithin :
    (mtu : ℕ) (acks : List Acknowledgement) (c : Conn)
    → c.peer.mtu ≡ mtu
    → mtu < 65536
    → IsWithin mtu c.host
    → IsWithin mtu (acknowledge_all acks c).host
unfolding acknowledge_all stop_acknowledging
acknowledge_all-IsWithin mtu [] c e small n = n
acknowledge_all-IsWithin mtu (a ∷ acks) c e small n = elim (Bool-cases (has_no_room c)) [
  | inl f ↦ rw f n
  | inr f ↦ rw f (
      acknowledge_all-IsWithin mtu acks (send_acknowledgement a c)
        (send_acknowledgement-mtu a c ∙ e) small
        (send_acknowledgement-IsWithin mtu a c (acknowledgement-IsWithin mtu a c e small f n)))
]

-- If the datagram so far has at most 32 commands and 65 buffers with the header's, if packetSize is the
-- number of bytes of its buffers and of the 4 bytes of the header, and if this is at most the peer's
-- MTU, which is below 65536, then all this holds with the acknowledgements that
-- `enet_protocol_send_acknowledgements` adds, however many are waiting. The 4 bytes of a checksum are
-- not counted.
pub send_acknowledgements-IsWithin :
    (c : Conn)
    → c.peer.mtu < 65536
    → IsWithin c.peer.mtu c.host
    → IsWithin c.peer.mtu (send_acknowledgements c).host
unfolding send_acknowledgements
send_acknowledgements-IsWithin c small n =
    acknowledge_all-IsWithin c.peer.mtu c.peer.acknowledgements c refl small n
