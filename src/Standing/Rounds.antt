-- ===== src/Standing/Rounds.antt =====
-- A peer's turn, and the passes over the peers, keep the host's counters:
-- `enet_protocol_send_outgoing_commands` of original/protocol.c.
use enet_rs.Prelude.{
  get_or-cases, ℕ, zero, suc, ◌+◌, refl, inl, inr, Bool, true, false, ◌&&◌, Option, none, some,
  List, [], is_empty, if◌then◌else◌, Bool-cases, arith,
}
use enet_rs.State.{OutgoingCommand, Peer, Conn}
use enet_rs.World.{World, zero_peer, get_peer, focus}
use enet_rs.Peer.Throttle.{peer_ping}
use enet_rs.Handle.Notify.{Event}
use enet_rs.Handle.Datagram.{Callbacks}
use enet_rs.Transmit.Outgoing.{Checked, check_outgoing_commands}
use enet_rs.Transmit.Datagram.{Network, build_datagram, socket_send}
use enet_rs.Transmit.Turn.{
  begin_turn, acknowledge_first, is_due, look_for_timeouts, put_outgoing, wants_ping, fill_datagram,
  average_loss, measure_loss, after_send, transmit, send_filled, after_timeouts, send_turn,
}
use enet_rs.Transmit.Passes.{
  Passing, is_passed_over, after_turn, serve_peer, goes_on, send_pass, send_passes,
  send_outgoing_commands,
}
use enet_rs.Standing.{Balanced}
use enet_rs.Standing.Frames.{standing-path, standing-if, standing-queue_outgoing_command}
use enet_rs.Standing.Moves.{Balanced-of, Balanced-if}
use enet_rs.Standing.Totals.{IsCounted, put_back-IsCounted}
use enet_rs.Standing.Sending.{
  Alike, Balanced-Alike, send_acknowledgements-Balanced, check_timeouts-Balanced,
}
use enet_rs.Standing.Filling.{
  check_outgoing_commands-Balanced, remove_sent_unreliable_commands-Balanced,
}

begin_turn-Balanced : (k j : ℕ) (c : Conn) → Balanced k j c → Balanced k j (begin_turn c)
unfolding begin_turn
begin_turn-Balanced k j c b = Balanced-of _ c (standing-path _ c refl refl refl refl) b

acknowledge_first-Balanced :
    (k j : ℕ) (c : Conn) → Balanced k j c → Balanced k j (acknowledge_first c)
unfolding acknowledge_first
acknowledge_first-Balanced k j c b =
    Balanced-if k j (is_empty c.peer.acknowledgements) c _ b
      (send_acknowledgements-Balanced k j c b)

look_for_timeouts-Balanced :
    (k j : ℕ) (t : Bool) (event : Option Event) (c : Conn)
    → Balanced k j c
    → Balanced k j (look_for_timeouts t event c).0.0
unfolding look_for_timeouts
look_for_timeouts-Balanced k j t event c b = elim (Bool-cases (is_due t c)) [
  | inl e ↦ rw e (check_timeouts-Balanced k j event c b)
  | inr e ↦ rw e b
]

peer_ping-Balanced : (k j : ℕ) (c : Conn) → Balanced k j c → Balanced k j (peer_ping c)
unfolding peer_ping
peer_ping-Balanced k j c b =
    Balanced-of _ c (standing-if _ _ c c (standing-queue_outgoing_command _ none 0 0 c) refl) b

Checked-if :
    (k j : ℕ) (t : Bool) (a b : Checked)
    → Balanced k j a.conn
    → Balanced k j b.conn
    → Balanced k j (if t then a else b).conn
Checked-if k j true a b p q = p
Checked-if k j false a b p q = q

put_outgoing-Balanced : (k j : ℕ) (c : Conn) → Balanced k j c → Balanced k j (put_outgoing c).conn
unfolding put_outgoing
put_outgoing-Balanced k j c b =
    Checked-if k j
      (is_empty c.peer.outgoing_commands && is_empty c.peer.outgoing_send_reliable_commands)
      (record { conn = c; unreliable = []; can_ping = true }) (check_outgoing_commands [] c) b
      (check_outgoing_commands-Balanced k j [] c b)

fill_datagram-Balanced : (k j : ℕ) (c : Conn) → Balanced k j c → Balanced k j (fill_datagram c).conn
unfolding fill_datagram
fill_datagram-Balanced k j c b =
    let b' = put_outgoing-Balanced k j c b in
    let p = put_outgoing c in
    Checked-if k j (wants_ping p) (check_outgoing_commands p.unreliable (peer_ping p.conn)) p
      (check_outgoing_commands-Balanced k j p.unreliable (peer_ping p.conn)
        (peer_ping-Balanced k j p.conn b'))
      b'

measure_loss-Alike : (now : ℕ) (p : Peer) → Alike (measure_loss now p) p
unfolding measure_loss average_loss
measure_loss-Alike now p = (ground arith, ground arith)

after_send-Balanced :
    (k j : ℕ) (event : Option Event) (n : Network) (result : Option ℕ) (c : Conn)
    → Balanced k j c
    → Balanced k j (after_send event n result c).conn
after_send-Balanced k j event n none c b = b
after_send-Balanced k j event n (some len) c b =
    Balanced-of _ c (standing-path _ c refl refl refl refl) b

transmit-Balanced :
    (k j : ℕ) (cb : Callbacks) (event : Option Event) (unreliable : List OutgoingCommand)
    (n : Network) (c : Conn)
    → Balanced k j c
    → Balanced k j (transmit cb event unreliable n c).conn
unfolding transmit
transmit-Balanced k j cb event unreliable n c b =
    let p = measure_loss c.host.service_time c.peer in
    let built = build_datagram cb (record c { peer = p }) in
    let sent = socket_send c.peer.address built.0 n in
    after_send-Balanced k j event sent.1 sent.0 _ (
      remove_sent_unreliable_commands-Balanced k j unreliable _ (
        Balanced-of _ (record c { peer = p })
          (standing-path _ (record c { peer = p }) refl refl refl refl)
          (Balanced-Alike k j c p (measure_loss-Alike c.host.service_time c.peer) b)))

send_filled-Balanced :
    (k j : ℕ) (cb : Callbacks) (event : Option Event) (n : Network) (f : Checked)
    → Balanced k j f.conn
    → Balanced k j (send_filled cb event n f).conn
unfolding send_filled
send_filled-Balanced k j cb event n f b = elim (Bool-cases (is_empty f.conn.host.commands)) [
  | inl e ↦ rw e b
  | inr e ↦ rw e (transmit-Balanced k j cb event f.unreliable n f.conn b)
]

after_timeouts-Balanced :
    (k j : ℕ) (cb : Callbacks) (n : Network) (r : (Conn × Option Event) × Bool)
    → Balanced k j r.0.0
    → Balanced k j (after_timeouts cb n r).conn
after_timeouts-Balanced k j cb n ((c, event), true) b = b
after_timeouts-Balanced k j cb n ((c, event), false) b =
    send_filled-Balanced k j cb event n (fill_datagram c) (fill_datagram-Balanced k j c b)

-- The turn of a peer keeps the counters in balance, whether it is acknowledged, timed out, filled,
-- sent, or refused by the network.
pub send_turn-Balanced :
    (k j : ℕ) (cb : Callbacks) (t : Bool) (event : Option Event) (n : Network) (c : Conn)
    → Balanced k j c
    → Balanced k j (send_turn cb t event n c).conn
unfolding send_turn
send_turn-Balanced k j cb t event n c b = after_timeouts-Balanced k j cb n _ (
    look_for_timeouts-Balanced k j t event _
      (acknowledge_first-Balanced k j _ (begin_turn-Balanced k j c b)))

Passing-if :
    (t : Bool) (a b : Passing)
    → IsCounted a.world
    → IsCounted b.world
    → IsCounted (if t then a else b).world
Passing-if true a b p q = p
Passing-if false a b p q = q

serve_peer-IsCounted :
    (cb : Callbacks) (t later : Bool) (id : ℕ) (s : Passing)
    → IsCounted s.world
    → IsCounted (serve_peer cb t later id s).world
unfolding serve_peer after_turn is_passed_over
serve_peer-IsCounted cb t later id s n = elim (get_or-cases s.world.peers id zero_peer) [
  | inr e ↦ rw e n
  | inl h ↦ Passing-if (is_passed_over later (get_peer s.world id)) s _ n (
      put_back-IsCounted s.world id _ h
        (λ k j b. send_turn-Balanced k j cb t s.event s.network (focus s.world id) b) n)
]

send_pass-IsCounted :
    (cb : Callbacks) (t later : Bool) (left id : ℕ) (s : Passing)
    → IsCounted s.world
    → IsCounted (send_pass cb t later left id s).world
unfolding send_pass
send_pass-IsCounted cb t later zero id s n = n
send_pass-IsCounted cb t later (suc left) id s n =
    let s' = serve_peer cb t later id s in
    let n' = serve_peer-IsCounted cb t later id s n in
    Passing-if (goes_on s'.outcome) (send_pass cb t later left (id + 1) s') s'
      (send_pass-IsCounted cb t later left (id + 1) s' n') n'

send_passes-IsCounted :
    (fuel : ℕ) (cb : Callbacks) (t later : Bool) (s : Passing)
    → IsCounted s.world
    → IsCounted (send_passes fuel cb t later s).world
unfolding send_passes
send_passes-IsCounted zero cb t later s n = n
send_passes-IsCounted (suc fuel) cb t later s n =
    let s' = send_pass cb t later s.world.host.peer_count 0 (record s { again = false }) in
    let n' =
      send_pass-IsCounted cb t later s.world.host.peer_count 0 (record s { again = false }) n in
    Passing-if (goes_on s'.outcome && s'.again) (send_passes fuel cb t true s') s'
      (send_passes-IsCounted fuel cb t true s' n') n'

pub send_outgoing_commands-IsCounted :
    (fuel : ℕ) (cb : Callbacks) (t : Bool) (event : Option Event) (n : Network) (w : World)
    → IsCounted w
    → IsCounted (send_outgoing_commands fuel cb t event n w).world
unfolding send_outgoing_commands
send_outgoing_commands-IsCounted fuel cb t event n w k = send_passes-IsCounted fuel cb t false _ k
