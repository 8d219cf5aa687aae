-- ===== src/Standing/Filling.antt =====
-- The commands that go into a datagram, and a peer's whole turn, keep the host's counters in balance:
-- `enet_protocol_check_outgoing_commands` and the body of `enet_protocol_send_outgoing_commands` of
-- original/protocol.c.
use enet_rs.Prelude.{
  ℕ, zero, suc, ◌+◌, ◌≡◌, ◌==◌, ◌++◌, refl, ◌∙◌, Bool, true, false, not, ◌&&◌, Option, none, some,
  List, [], ◌∷◌, is_empty, ltb, if◌then◌else◌, length,
}
use enet_rs.State.{OutgoingCommand, Peer, Host, Conn, state_is, disconnect_later}
use enet_rs.Peer.Outgoing.{has_packet, has_outgoing_commands, get_channel, on_channel}
use enet_rs.Transmit.Outgoing.{
  Sending, Origin, mixed_queue, reliable_queue, keep, skip_reliable, add_to_datagram, add_outgoing,
  add_data, enter_window, window_index, count_in_window, launch, launch_reliable, drop_packet,
  release_later, count_throttle, send_unreliable_command, put_command, put_reliable, consider,
  advance, after_next, send_loop, does_not_fit, is_window_blocked, exceeds_window, put_queues,
  leave_if_done, start_sending, check_outgoing_commands, remove_sent_unreliable_commands,
}
use enet_rs.Transmit.Acknowledgements.{add_command}
use enet_rs.Standing.{standing, Balanced}
use enet_rs.Standing.Frames.{standing-path}
use enet_rs.Standing.Moves.{Balanced-of, Balanced-if, disconnect_connected-Balanced}
use enet_rs.Standing.Sending.{Alike, Alike-if}

-- The connection of the loop's state.
abbrev pub conn_of : Sending → Conn
conn_of s = record { host = s.host; peer = s.peer }

abbrev pub Kept : Sending → Sending → Type 0
Kept s t = standing (conn_of s) ≡ standing (conn_of t)

Kept-if : (b : Bool) (r s t : Sending) → Kept r t → Kept s t → Kept (if b then r else s) t
Kept-if true r s t p q = p
Kept-if false r s t p q = q

Kept-if₂ :
    (b : Bool) (r s : Sending × Bool) (t : Sending)
    → Kept r.0 t
    → Kept s.0 t
    → Kept (if b then r else s).0 t
Kept-if₂ true r s t p q = p
Kept-if₂ false r s t p q = q

-- A change that leaves the counters, the state and the bandwidth alone.
Kept-path :
    (s t : Sending)
    → s.host.connected_peers ≡ t.host.connected_peers
    → s.host.bandwidth_limited_peers ≡ t.host.bandwidth_limited_peers
    → Alike s.peer t.peer
    → Kept s t
Kept-path s t p q (a, b) = standing-path (conn_of s) (conn_of t) p q a b

keep-Kept : (g : Origin) (o : OutgoingCommand) (s : Sending) → Kept (keep g o s) s
unfolding keep
keep-Kept mixed_queue o s = refl
keep-Kept reliable_queue o s = refl

skip_reliable-Kept : (s : Sending) → Kept (skip_reliable s) s
unfolding skip_reliable
skip_reliable-Kept s = refl

-- A host's two counters.
abbrev Counters : Host → Host → Type 0
Counters h g =
    (h.connected_peers ≡ g.connected_peers)
    × (h.bandwidth_limited_peers ≡ g.bandwidth_limited_peers)

add_data-Counters :
    (o : OutgoingCommand) (packet : Option ℕ) (h : Host) → Counters (add_data o packet h) h
add_data-Counters o none h = (refl, refl)
add_data-Counters o (some k) h = (refl, refl)

add_outgoing-Counters : (o : OutgoingCommand) (h : Host) → Counters (add_outgoing o h) h
unfolding add_outgoing add_command
add_outgoing-Counters o h = add_data-Counters o o.packet _

add_to_datagram-Kept : (o : OutgoingCommand) (s : Sending) → Kept (add_to_datagram o s) s
unfolding add_to_datagram
add_to_datagram-Kept o s =
    Kept-path (add_to_datagram o s) s (add_outgoing-Counters o s.host).0
      (add_outgoing-Counters o s.host).1 (refl, refl)

count_in_window-Alike : (o : OutgoingCommand) (p : Peer) → Alike (count_in_window o p) p
unfolding count_in_window
count_in_window-Alike o p =
    Alike-if (ltb o.command.channel_id p.channel_count && ltb o.send_attempts 1)
      (on_channel p o.command.channel_id (enter_window (window_index o))) p p (refl, refl)
      (refl, refl)

launch-Alike : (o : OutgoingCommand) (now : ℕ) (p : Peer) → Alike (launch o now p) p
unfolding launch
launch-Alike o now p = count_in_window-Alike o p

launch_reliable-Kept : (o : OutgoingCommand) (s : Sending) → Kept (launch_reliable o s) s
unfolding launch_reliable
launch_reliable-Kept o s =
    Kept-path (launch_reliable o s) s refl refl (launch-Alike o s.host.service_time s.peer)

drop_packet-Kept : (o : OutgoingCommand) (s : Sending) → Kept (drop_packet o s) s
unfolding drop_packet
drop_packet-Kept o s = Kept-path (drop_packet o s) s refl refl (refl, refl)

release_later-Kept : (o : OutgoingCommand) (s : Sending) → Kept (release_later o s) s
unfolding release_later
release_later-Kept o s =
    let listed : Sending = record s { unreliable = s.unreliable ++ (o ∷ []) } in
    add_to_datagram-Kept o (if has_packet o.packet then listed else s)
    ∙ Kept-if (has_packet o.packet) listed s s (Kept-path listed s refl refl (refl, refl)) refl

send_unreliable_command-Kept :
    (o : OutgoingCommand) (s : Sending) → Kept (send_unreliable_command o s) s
unfolding send_unreliable_command count_throttle
send_unreliable_command-Kept o s =
    let counted : Sending = record s { peer = count_throttle s.peer } in
    let counts : Kept counted s = Kept-path counted s refl refl (refl, refl) in
    Kept-if (has_packet o.packet && o.fragment_offset == 0) _ (release_later o s) s
      (Kept-if (ltb s.peer.packet_throttle counted.peer.packet_throttle_counter)
        (drop_packet o counted) (release_later o counted) s (drop_packet-Kept o counted ∙ counts)
        (release_later-Kept o counted ∙ counts))
      (release_later-Kept o s)

put_command-Kept : (g : Origin) (o : OutgoingCommand) (s : Sending) → Kept (put_command g o s).0 s
unfolding put_command
put_command-Kept g o s =
    let full : Sending = record s { peer = record (s.peer) { continue_sending = true } } in
    Kept-if₂ (does_not_fit o s.host s.peer) (keep g o full, false) _ s
      (keep-Kept g o full ∙ Kept-path full s refl refl (refl, refl))
      (Kept-if₂ o.command.flag_acknowledge (add_to_datagram o (launch_reliable o s), true)
        (send_unreliable_command o s, true) s
        (add_to_datagram-Kept o (launch_reliable o s) ∙ launch_reliable-Kept o s)
        (send_unreliable_command-Kept o s))

put_reliable-Kept : (g : Origin) (o : OutgoingCommand) (s : Sending) → Kept (put_reliable g o s).0 s
unfolding put_reliable
put_reliable-Kept g o s =
    let has_channel = ltb o.command.channel_id s.peer.channel_count in
    let wrapped : Sending = record s { window_wrap = true } in
    let busy : Sending = record s { can_ping = false } in
    Kept-if₂ (has_channel && s.window_wrap) (keep g o s, true) _ s (keep-Kept g o s)
      (Kept-if₂ (has_channel && is_window_blocked o (get_channel s.peer o.command.channel_id))
        (skip_reliable (keep g o wrapped), true) _ s
        (skip_reliable-Kept (keep g o wrapped) ∙ keep-Kept g o wrapped)
        (Kept-if₂ (exceeds_window o s.peer) (skip_reliable (keep g o s), true)
          (put_command g o busy) s (skip_reliable-Kept (keep g o s) ∙ keep-Kept g o s)
          (put_command-Kept g o busy)))

advance-Kept : (g : Origin) (s : Sending) → Kept (advance g s) s
unfolding advance
advance-Kept mixed_queue s = refl
advance-Kept reliable_queue s = refl

consider-Kept : (g : Origin) (o : OutgoingCommand) (s : Sending) → Kept (consider g o s).0 s
unfolding consider
consider-Kept g o s =
    Kept-if₂ o.command.flag_acknowledge (put_reliable g o s) (put_command g o s) s
      (put_reliable-Kept g o s) (put_command-Kept g o s)

after_next-Kept :
    (go_on : Sending → Sending) (next : Option (Origin × OutgoingCommand)) (s : Sending)
    → ((t : Sending) → Kept (go_on t) t)
    → Kept (after_next go_on next s) s
after_next-Kept go_on none s keeps = refl
after_next-Kept go_on (some (g, o)) s keeps =
    let r = consider g o (advance g s) in
    let moved : Kept r.0 s = consider-Kept g o (advance g s) ∙ advance-Kept g s in
    Kept-if r.1 (go_on r.0) r.0 s (keeps r.0 ∙ moved) moved

send_loop-Kept : (fuel : ℕ) (s : Sending) → Kept (send_loop fuel s) s
unfolding send_loop
send_loop-Kept zero s = refl
send_loop-Kept (suc fuel) s = after_next-Kept (send_loop fuel) _ s (send_loop-Kept fuel)

leave_if_done-Balanced :
    (k j : ℕ) (unreliable : List OutgoingCommand) (c : Conn)
    → Balanced k j c
    → Balanced k j (leave_if_done unreliable c)
unfolding leave_if_done
leave_if_done-Balanced k j unreliable c b =
    Balanced-if k j
      (state_is c.peer.state disconnect_later
        && not (has_outgoing_commands c.peer)
        && is_empty unreliable)
      _ c (disconnect_connected-Balanced k j c.peer.event_data c b) b

pub check_outgoing_commands-Balanced :
    (k j : ℕ) (unreliable : List OutgoingCommand) (c : Conn)
    → Balanced k j c
    → Balanced k j (check_outgoing_commands unreliable c).conn
unfolding check_outgoing_commands start_sending put_queues
check_outgoing_commands-Balanced k j unreliable c b =
    let s =
      send_loop (length c.peer.outgoing_commands + length c.peer.outgoing_send_reliable_commands)
        (start_sending unreliable c) in
    leave_if_done-Balanced k j s.unreliable _ (
      Balanced-of _ (conn_of s) (standing-path _ (conn_of s) refl refl refl refl)
        (Balanced-of (conn_of s) c (send_loop-Kept _ (start_sending unreliable c)) b))

pub remove_sent_unreliable_commands-Balanced :
    (k j : ℕ) (unreliable : List OutgoingCommand) (c : Conn)
    → Balanced k j c
    → Balanced k j (remove_sent_unreliable_commands unreliable c)
unfolding remove_sent_unreliable_commands
remove_sent_unreliable_commands-Balanced k j unreliable c b =
    Balanced-if k j (is_empty unreliable) c _ b
      (leave_if_done-Balanced k j [] _ (Balanced-of _ c (standing-path _ c refl refl refl refl) b))
